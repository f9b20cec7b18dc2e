-- ===== src/Prelude/Iterators.antt =====
-- The iterator and slice methods of Rust's standard library that the program calls.
use Prim.Native.Nat.{ℕ, ◌+◌}
use mathlib.Core.Path.{◌≡◌, refl}
use mathlib.Core.Logic.{◌⊎◌, inl, inr}
use mathlib.Core.Bool.{Bool, true, false, ◌&&◌, ◌||◌}
use mathlib.Core.Option.{Option, none, some}
use mathlib.Core.List.Memᴰ
use mathlib.Core.List.{List, [], ◌∷◌, Memᴰ}
use native.Mathlib.Omega.{arith}
use contexide.Prelude.Tests.{if◌then◌else◌, Bool-cases}
use contexide.Prelude.Lists.{length, take, Memᴰ-take}

-- `Option::is_some`
abbrev pub is_some {ℓ} : {A : Type ℓ} → Option A → Bool
is_some none = false
is_some (some a) = true

module _ {ℓ} {A : Type ℓ} where
  -- `iter().any(p)` and `iter().all(p)`
  abbrev pub any : (A → Bool) → List A → Bool
  any p [] = false
  any p (x ∷ xs) = p x || any p xs

  abbrev pub all : (A → Bool) → List A → Bool
  all p [] = true
  all p (x ∷ xs) = p x && all p xs

  -- `iter().filter(p)`
  abbrev pub filter : (A → Bool) → List A → List A
  filter p [] = []
  filter p (x ∷ xs) = let rest = filter p xs in if p x then x ∷ rest else rest

  -- `sort_by`, which is stable, by insertion.
  abbrev pub insert_sorted : (A → A → Bool) → A → List A → List A
  insert_sorted le x [] = x ∷ []
  insert_sorted le x (y ∷ ys) = if le x y then x ∷ y ∷ ys else y ∷ insert_sorted le x ys

  abbrev pub sort_by : (A → A → Bool) → List A → List A
  sort_by le [] = []
  sort_by le (x ∷ xs) = insert_sorted le x (sort_by le xs)

  -- `truncate`, where a limit is given.
  abbrev pub truncate : Option ℕ → List A → List A
  truncate none xs = xs
  truncate (some n) xs = take n xs

  pub Memᴰ-filter :
      (p : A → Bool) (xs : List A) {a : A} → Memᴰ a (filter p xs) → Memᴰ a xs × (p a ≡ true)
  Memᴰ-filter p [] m = absurd (Memᴰ.not-nil m)
  Memᴰ-filter p (x ∷ xs) {a} m = elim (Bool-cases (p x)) [
    | inl kept ↦ elim (Memᴰ.cases_cons (rw (kept, filter) at m)) [
      | inl here ↦ (Memᴰ.head here, rw here kept)
      | inr later ↦ let (n, e) = Memᴰ-filter p xs later in (Memᴰ.tail n, e)
    ]
    | inr dropped ↦ let (n, e) = Memᴰ-filter p xs (rw (dropped, filter) at m) in (Memᴰ.tail n, e)
  ]

  pub length-insert_sorted :
      (le : A → A → Bool) (x : A) (xs : List A) → length (insert_sorted le x xs) ≡ length xs + 1
  length-insert_sorted le x [] = omega arith
  length-insert_sorted le x (y ∷ ys) = ground (arith, length-insert_sorted le x ys)

  pub length-sort_by : (le : A → A → Bool) (xs : List A) → length (sort_by le xs) ≡ length xs
  length-sort_by le [] = refl
  length-sort_by le (x ∷ xs) =
      omega (arith, length-insert_sorted le x (sort_by le xs), length-sort_by le xs)

  Memᴰ-insert_sorted :
      (le : A → A → Bool) (x : A) (xs : List A) {a : A}
      → Memᴰ a (insert_sorted le x xs)
      → (a ≡ x) ⊎ Memᴰ a xs
  Memᴰ-insert_sorted le x [] m = Memᴰ.cases_cons m
  Memᴰ-insert_sorted le x (y ∷ ys) m = elim (Bool-cases (le x y)) [
    | inl before ↦ Memᴰ.cases_cons (rw (before, insert_sorted) at m)
    | inr after ↦ elim (Memᴰ.cases_cons (rw (after, insert_sorted) at m)) [
      | inl here ↦ inr (Memᴰ.head here)
      | inr later ↦ elim (Memᴰ-insert_sorted le x ys later) [
        | inl e ↦ inl e
        | inr n ↦ inr (Memᴰ.tail n)
      ]
    ]
  ]

  pub Memᴰ-sort_by : (le : A → A → Bool) (xs : List A) {a : A} → Memᴰ a (sort_by le xs) → Memᴰ a xs
  Memᴰ-sort_by le [] m = m
  Memᴰ-sort_by le (x ∷ xs) m = elim (Memᴰ-insert_sorted le x (sort_by le xs) m) [
    | inl e ↦ Memᴰ.head e
    | inr n ↦ Memᴰ.tail (Memᴰ-sort_by le xs n)
  ]

  pub Memᴰ-truncate : (n : Option ℕ) (xs : List A) {a : A} → Memᴰ a (truncate n xs) → Memᴰ a xs
  Memᴰ-truncate none xs m = m
  Memᴰ-truncate (some n) xs m = Memᴰ-take n xs m
