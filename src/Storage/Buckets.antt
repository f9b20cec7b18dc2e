-- ===== src/Storage/Buckets.antt =====
-- The buckets of the secondary indices in crates/contexide-storage-pg/src: a `Vec` or a `HashSet` of
-- keys, as a list. The order of a set is one of the possible orders.
use contexide.Prelude.{
  ◌≡◌, refl, sym, ap, ◌∙◌, inl, inr, List-cases, Bool, true, false, ◌&&◌, ◌||◌, not, List, [], ◌∷◌,
  ◌++◌, map, insert_sorted, sort_by, arith, Eq, ◌==◌, ==_iff, if◌then◌else◌,
}

module _ {K : Type 0} ⦃e : Eq K⦄ where
  abbrev pub contains : K → List K → Bool
  contains k [] = false
  contains k (x ∷ xs) = x == k || contains k xs

  abbrev pub is_distinct : List K → Bool
  is_distinct [] = true
  is_distinct (x ∷ xs) = not (contains x xs) && is_distinct xs

  pub contains-append :
      (k : K) (xs ys : List K) → contains k (xs ++ ys) ≡ (contains k xs || contains k ys)
  contains-append k [] ys = refl
  contains-append k (x ∷ xs) ys = ground (arith, contains-append k xs ys)

  -- `Vec::push` and `HashSet::insert`
  abbrev pub push : K → List K → List K
  push k xs = xs ++ k ∷ []

  abbrev pub insert : K → List K → List K
  insert k xs = if contains k xs then xs else push k xs

  -- What `swap_remove` leaves from the place of the removed one on: the last stands in its place.
  abbrev pub last_to_front : K → List K → List K
  last_to_front x [] = x ∷ []
  last_to_front x (y ∷ ys) = elim (last_to_front y ys) [ [] ↦ x ∷ [] | z ∷ zs ↦ z ∷ x ∷ zs ]

  abbrev pub closed_up : List K → List K
  closed_up [] = []
  closed_up (x ∷ xs) = last_to_front x xs

  -- `if let Some(pos) = v.iter().position(|x| *x == k) { v.swap_remove(pos); }`
  abbrev pub swap_remove : K → List K → List K
  swap_remove k [] = []
  swap_remove k (x ∷ xs) = let rest = swap_remove k xs in if x == k then closed_up xs else x ∷ rest

  contains-last_to_front :
      (k x : K) (xs : List K) → contains k (last_to_front x xs) ≡ (x == k || contains k xs)
  contains-last_to_front k x [] = refl
  contains-last_to_front k x (y ∷ ys) = ground (arith, contains-last_to_front k y ys)

  last_to_front-is_distinct :
      (x : K) (xs : List K) → is_distinct (x ∷ xs) ≡ true → is_distinct (last_to_front x xs) ≡ true
  last_to_front-is_distinct x [] h = refl
  last_to_front-is_distinct x (y ∷ ys) h = elim (List-cases (last_to_front y ys)) [
    | inl none_left ↦ rw (none_left, last_to_front) refl
    | inr (z, zs, e) ↦
        let rest : is_distinct (z ∷ zs) ≡ true =
          ap is_distinct (sym e) ∙ last_to_front-is_distinct y ys (ground arith) in
        let apart : contains x (z ∷ zs) ≡ false =
          ap (contains x) (sym e) ∙ contains-last_to_front x y ys ∙ ground arith in
        rw (e, last_to_front) (ground (arith, ==_iff x z, ==_iff z x))
  ]

  contains-closed_up : (k : K) (xs : List K) → contains k (closed_up xs) ≡ contains k xs
  contains-closed_up k [] = refl
  contains-closed_up k (x ∷ xs) = contains-last_to_front k x xs

  closed_up-is_distinct : (xs : List K) → is_distinct xs ≡ true → is_distinct (closed_up xs) ≡ true
  closed_up-is_distinct [] h = refl
  closed_up-is_distinct (x ∷ xs) h = last_to_front-is_distinct x xs h

  pub contains-swap_remove :
      (k j : K) (xs : List K)
      → is_distinct xs ≡ true
      → contains j (swap_remove k xs) ≡ (if k == j then false else contains j xs)
  contains-swap_remove k j [] h = ground arith
  contains-swap_remove k j (x ∷ xs) h = ground (
    arith,
    ==_iff k j,
    ==_iff x k,
    ==_iff x j,
    contains-swap_remove k j xs,
    contains-closed_up j xs,
  )

  pub swap_remove-is_distinct :
      (k : K) (xs : List K) → is_distinct xs ≡ true → is_distinct (swap_remove k xs) ≡ true
  swap_remove-is_distinct k [] h = refl
  swap_remove-is_distinct k (x ∷ xs) h = ground (
    arith,
    ==_iff k x,
    ==_iff x k,
    swap_remove-is_distinct k xs,
    contains-swap_remove k x xs,
    closed_up-is_distinct xs,
  )

  pub push-is_distinct :
      (k : K) (xs : List K)
      → is_distinct xs ≡ true
      → contains k xs ≡ false
      → is_distinct (push k xs) ≡ true
  push-is_distinct k [] h out = refl
  push-is_distinct k (x ∷ xs) h out =
      ground (arith, ==_iff k x, ==_iff x k, push-is_distinct k xs, contains-append x xs (k ∷ []))

-- How a kind of bucket takes a key in.
pub record Bucket (K : Type 0) ⦃e : Eq K⦄ : Type 0 where
  pub add : K → List K → List K
  pub contains-add : (k j : K) (xs : List K) → contains j (add k xs) ≡ (k == j || contains j xs)
  pub add-is_distinct :
      (k : K) (xs : List K)
      → is_distinct xs ≡ true
      → contains k xs ≡ false
      → is_distinct (add k xs) ≡ true

module _ {K : Type 0} ⦃e : Eq K⦄ where
  pub contains-push : (k j : K) (xs : List K) → contains j (push k xs) ≡ (k == j || contains j xs)
  contains-push k j xs = ground (arith, contains-append j xs (k ∷ []))

  contains_here : (k j : K) (xs : List K) → (k == j) ≡ true → contains k xs ≡ contains j xs
  contains_here k j xs h = ap (λ i. contains i xs) ((==_iff k j).0 h)

  pub contains-insert :
      (k j : K) (xs : List K) → contains j (insert k xs) ≡ (k == j || contains j xs)
  contains-insert k j xs = ground (arith, contains-append j xs (k ∷ []), contains_here k j xs)

  pub insert-is_distinct :
      (k : K) (xs : List K)
      → is_distinct xs ≡ true
      → contains k xs ≡ false
      → is_distinct (insert k xs) ≡ true
  insert-is_distinct k xs h out = ground (arith, push-is_distinct k xs)

  abbrev pub vec : Bucket K
  vec = record { add = push; contains-add = contains-push; add-is_distinct = push-is_distinct }

  abbrev pub hash_set : Bucket K
  hash_set = record {
    add = insert;
    contains-add = contains-insert;
    add-is_distinct = insert-is_distinct;
  }

-- Sorting keeps keys apart.
module _ {K V : Type 0} ⦃e : Eq K⦄ (key : V → K) where
  contains_keys-insert_sorted :
      (le : V → V → Bool) (x : V) (xs : List V) (k : K)
      → contains k (map key (insert_sorted le x xs)) ≡ contains k (map key (x ∷ xs))
  contains_keys-insert_sorted le x [] k = refl
  contains_keys-insert_sorted le x (y ∷ ys) k =
      ground (arith, contains_keys-insert_sorted le x ys k)

  contains_keys-sort_by :
      (le : V → V → Bool) (xs : List V) (k : K)
      → contains k (map key (sort_by le xs)) ≡ contains k (map key xs)
  contains_keys-sort_by le [] k = refl
  contains_keys-sort_by le (x ∷ xs) k =
      contains_keys-insert_sorted le x (sort_by le xs) k
      ∙ ap (λ b. key x == k || b) (contains_keys-sort_by le xs k)

  insert_sorted-is_distinct :
      (le : V → V → Bool) (x : V) (xs : List V)
      → is_distinct (map key (x ∷ xs)) ≡ true
      → is_distinct (map key (insert_sorted le x xs)) ≡ true
  insert_sorted-is_distinct le x [] h = refl
  insert_sorted-is_distinct le x (y ∷ ys) h = ground (
    arith,
    ==_iff (key x) (key y),
    ==_iff (key y) (key x),
    contains_keys-insert_sorted le x ys (key y),
    insert_sorted-is_distinct le x ys,
  )

  pub sort_by-is_distinct :
      (le : V → V → Bool) (xs : List V)
      → is_distinct (map key xs) ≡ true
      → is_distinct (map key (sort_by le xs)) ≡ true
  sort_by-is_distinct le [] h = refl
  sort_by-is_distinct le (x ∷ xs) h =
      insert_sorted-is_distinct le x (sort_by le xs)
        (ground (arith, contains_keys-sort_by le xs (key x), sort_by-is_distinct le xs))
