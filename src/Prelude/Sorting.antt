-- ===== src/Prelude/Sorting.antt =====
-- What `sort_by` returns.
use mathlib.Core.Path.{◌≡◌, refl}
use mathlib.Core.Logic.{◌⊎◌, inl, inr}
use mathlib.Core.Bool.{Bool, true, false, ◌&&◌}
use mathlib.Core.List.Memᴰ
use mathlib.Core.List.{List, [], ◌∷◌, Memᴰ}
use native.Mathlib.Omega.{arith}
use contexide.Prelude.Tests.{Bool-cases}
use contexide.Prelude.Iterators.{insert_sorted, sort_by}

module _ {ℓ} {A : Type ℓ} where
  insert_sorted-Memᴰ :
      (le : A → A → Bool) (x : A) (xs : List A) {a : A}
      → (a ≡ x) ⊎ Memᴰ a xs
      → Memᴰ a (insert_sorted le x xs)
  insert_sorted-Memᴰ le x [] (inl here) = Memᴰ.head here
  insert_sorted-Memᴰ le x [] (inr m) = absurd (Memᴰ.not-nil m)
  insert_sorted-Memᴰ le x (y ∷ ys) m = elim (Bool-cases (le x y)) [
    | inl before ↦
        rw (before, insert_sorted)
          (elim m [ inl here ↦ Memᴰ.head here | inr later ↦ Memᴰ.tail later ])
    | inr after ↦
        rw (after, insert_sorted)
          (elim m [
            | inl here ↦ Memᴰ.tail (insert_sorted-Memᴰ le x ys (inl here))
            | inr later ↦ elim (Memᴰ.cases_cons later) [
              | inl first ↦ Memᴰ.head first
              | inr rest ↦ Memᴰ.tail (insert_sorted-Memᴰ le x ys (inr rest))
            ]
          ])
  ]

  pub sort_by-Memᴰ : (le : A → A → Bool) (xs : List A) {a : A} → Memᴰ a xs → Memᴰ a (sort_by le xs)
  sort_by-Memᴰ le [] m = m
  sort_by-Memᴰ le (x ∷ xs) m = elim (Memᴰ.cases_cons m) [
    | inl here ↦ insert_sorted-Memᴰ le x (sort_by le xs) (inl here)
    | inr later ↦ insert_sorted-Memᴰ le x (sort_by le xs) (inr (sort_by-Memᴰ le xs later))
  ]

  abbrev pub precedes : (A → A → Bool) → A → List A → Bool
  precedes le x [] = true
  precedes le x (y ∷ ys) = le x y

  -- Each element is in order with the next.
  abbrev pub is_sorted : (A → A → Bool) → List A → Bool
  is_sorted le [] = true
  is_sorted le (x ∷ xs) = precedes le x xs && is_sorted le xs

  abbrev pub IsTotal : (A → A → Bool) → Type ℓ
  IsTotal le = (x y : A) → le x y ≡ false → le y x ≡ true

  precedes-insert_sorted :
      (le : A → A → Bool) (x y : A) (ys : List A)
      → precedes le y ys ≡ true
      → le y x ≡ true
      → precedes le y (insert_sorted le x ys) ≡ true
  precedes-insert_sorted le x y [] a b = b
  precedes-insert_sorted le x y (z ∷ zs) a b = ground arith

  insert_sorted-is_sorted :
      (le : A → A → Bool) (x : A) (xs : List A)
      → IsTotal le
      → is_sorted le xs ≡ true
      → is_sorted le (insert_sorted le x xs) ≡ true
  insert_sorted-is_sorted le x [] total h = refl
  insert_sorted-is_sorted le x (y ∷ ys) total h =
      ground
        (arith, total x y, precedes-insert_sorted le x y ys, insert_sorted-is_sorted le x ys total)

  pub sort_by-is_sorted :
      (le : A → A → Bool) (xs : List A) → IsTotal le → is_sorted le (sort_by le xs) ≡ true
  sort_by-is_sorted le [] total = refl
  sort_by-is_sorted le (x ∷ xs) total =
      insert_sorted-is_sorted le x (sort_by le xs) total (sort_by-is_sorted le xs total)
