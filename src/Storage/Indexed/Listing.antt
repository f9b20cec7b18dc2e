-- ===== src/Storage/Indexed/Listing.antt =====
-- What the index lists, and the removal of a group.
use mathlib.Core.List.Memᴰ
use contexide.Prelude.{
  ℕ, ◌+◌, ◌≡◌, ◌↔◌, refl, sym, ap, ◌∙◌, inl, inr, Bool, true, Option, none, some, List, [], ◌∷◌,
  map, arith, Eq, ◌==◌, ==_iff, if◌then◌else◌, Option-cases, Bool-cases, Memᴰ, length, is_some,
  sort_by, Memᴰ-sort_by, sort_by-Memᴰ,
}
use contexide.HashMap
use contexide.HashMap.{HashMap, get-remove}
use contexide.Storage.Buckets.{contains, is_distinct, sort_by-is_distinct}
use contexide.Storage.Indexed.{Schema, Repo, bucket, get, filter_map, list, remove_all}
use contexide.Storage.Indexed.Invariant.{IsIndexed}

module _ {K : Type 0} ⦃e : Eq K⦄ where
  pub Memᴰ_of_contains : (k : K) (ks : List K) → contains k ks ≡ true → Memᴰ k ks
  Memᴰ_of_contains k [] h = absurd cc
  Memᴰ_of_contains k (x ∷ xs) h = elim (Bool-cases (x == k)) [
    | inl here ↦ Memᴰ.head (sym ((==_iff x k).0 here))
    | inr other ↦ Memᴰ.tail (Memᴰ_of_contains k xs (ground arith))
  ]

module _ {K V : Type 0} ⦃e : Eq K⦄ where
  pub get-remove_all :
      (ids : List K) (m : HashMap K V) (n : ℕ) (k : K)
      → HashMap.get k (remove_all ids m n).0 ≡ (if contains k ids then none else HashMap.get k m)
  unfolding remove_all
  get-remove_all [] m n k = refl
  get-remove_all (id ∷ ids) m n k =
      get-remove_all ids (HashMap.remove id m) _ k ∙ ground (arith, get-remove id k m)

  pub count-remove_all :
      (ids : List K) (m : HashMap K V) (n : ℕ)
      → is_distinct ids ≡ true
      → ((k : K) → contains k ids ≡ true → is_some (HashMap.get k m) ≡ true)
      → (remove_all ids m n).1 ≡ n + length ids
  unfolding remove_all
  count-remove_all [] m n once there = omega arith
  count-remove_all (id ∷ ids) m n once there =
      let here : is_some (HashMap.get id m) ≡ true = there id (ground (arith, ==_iff id id)) in
      let rest =
        count-remove_all ids (HashMap.remove id m) (n + 1) (ground arith)
          (λ k h. ground (arith, get-remove id k m, ==_iff id k, there k)) in
      rw (here, remove_all) (omega (arith, rest))

module _ {K G V : Type 0} ⦃e : Eq K⦄ ⦃d : Eq G⦄ (schema : Schema K G V) where
  open schema use {key, group}

  abbrev Names : Repo K G V → List K → Type 0
  Names repo ks = (k : K) → contains k ks ≡ true → (v : V) × (get repo k ≡ some v) × (key v ≡ k)

  keys_of-filter_map :
      (repo : Repo K G V) (ks : List K) → Names repo ks → map key (filter_map (get repo) ks) ≡ ks
  keys_of-filter_map repo [] names = refl
  keys_of-filter_map repo (k ∷ ks) names =
      let (v, found, own) = names k (ground (arith, ==_iff k k)) in
      let rest = keys_of-filter_map repo ks (λ j h. names j (ground arith)) in
      rw (found, filter_map) (ground (arith, own, rest))

  Memᴰ-filter_map :
      (f : K → Option V) (ks : List K) (v : V)
      → Memᴰ v (filter_map f ks)
      → (k : K) × (contains k ks ≡ true) × (f k ≡ some v)
  Memᴰ-filter_map f [] v m = absurd (Memᴰ.not-nil m)
  Memᴰ-filter_map f (k ∷ ks) v m = elim (Option-cases (f k)) [
    | inl absent ↦
        let (j, within, found) = Memᴰ-filter_map f ks v (rw (absent, filter_map) at m) in
        (j, ground arith, found)
    | inr (w, there) ↦ elim (Memᴰ.cases_cons (rw (there, filter_map) at m)) [
      | inl here ↦ (k, ground (arith, ==_iff k k), there ∙ ap some (sym here))
      | inr later ↦
          let (j, within, found) = Memᴰ-filter_map f ks v later in (j, ground arith, found)
    ]
  ]

  filter_map-Memᴰ :
      (f : K → Option V) (ks : List K) (k : K) (v : V)
      → contains k ks ≡ true
      → f k ≡ some v
      → Memᴰ v (filter_map f ks)
  filter_map-Memᴰ f [] k v within found = absurd cc
  filter_map-Memᴰ f (j ∷ ks) k v within found = elim (Bool-cases (j == k)) [
    | inl here ↦ let e = ap f ((==_iff j k).0 here) ∙ found in rw (e, filter_map) (Memᴰ.head refl)
    | inr other ↦
        let later = filter_map-Memᴰ f ks k v (ground arith) found in
        elim (Option-cases (f j)) [
          | inl absent ↦ rw (absent, filter_map) later
          | inr (w, there) ↦ rw (there, filter_map) (Memᴰ.tail later)
        ]
  ]

  module _ (repo : Repo K G V) (indexed : IsIndexed schema repo) where
    bucket-Names : (g : G) → Names repo (bucket repo g)
    bucket-Names g k within = elim (Option-cases (get repo k)) [
      | inl absent ↦ absurd (ground (arith, indexed.listed g k))
      | inr (v, found) ↦ (v, found, indexed.owned k v found)
    ]

    -- The keys of what is listed for a group are those of its bucket.
    pub keys_of-list : (g : G) → map key (list repo g) ≡ bucket repo g
    unfolding list
    keys_of-list g = keys_of-filter_map repo (bucket repo g) (bucket-Names g)

    pub list_iff :
        (g : G) (v : V) → Memᴰ v (list repo g) ↔ ((get repo (key v) ≡ some v) × (group v ≡ g))
    unfolding list
    list_iff g v = (
      λ m.
          let (k, within, found) = Memᴰ-filter_map (get repo) (bucket repo g) v m in
          let at_k = indexed.owned k v found in
          (ap (get repo) at_k ∙ found, (==_iff (group v) g).0 (ground (arith, indexed.listed g k))),
      λ (found, there).
          filter_map-Memᴰ (get repo) (bucket repo g) (key v) v
            (ground (arith, indexed.listed g (key v), ==_iff (group v) g)) found,
    )

    -- `sort_by` changes the order alone.
    pub sorted_list_iff :
        (le : V → V → Bool) (g : G) (v : V)
        → Memᴰ v (sort_by le (list repo g)) ↔ ((get repo (key v) ≡ some v) × (group v ≡ g))
    sorted_list_iff le g v = (
      λ m. (list_iff g v).0 (Memᴰ-sort_by le (list repo g) m),
      λ h. sort_by-Memᴰ le (list repo g) ((list_iff g v).1 h),
    )

    pub sorted_list-is_distinct :
        (le : V → V → Bool) (g : G) → is_distinct (map key (sort_by le (list repo g))) ≡ true
    sorted_list-is_distinct le g =
        sort_by-is_distinct key le (list repo g)
          (ap is_distinct (keys_of-list g) ∙ indexed.distinct g)
