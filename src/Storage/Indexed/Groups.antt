-- ===== src/Storage/Indexed/Groups.antt =====
-- The removal of a group, and a change of fields that are not indexed.
use contexide.Prelude.{
  ◌≡◌, refl, sym, ap, ◌∙◌, inl, inr, true, Option, none, some, arith, Eq, ==_iff, if◌then◌else◌,
  Option-cases, List-cases, length, length-map, is_some,
}
use native.Mathlib.Nat.{zero-add}
use contexide.HashMap
use contexide.HashMap.{get-insert, get-remove}
use contexide.Storage.Buckets.{contains}
use contexide.Storage.Indexed.{Schema, Repo, bucket, get, list, remove_all, delete_group, update}
use contexide.Storage.Indexed.Invariant.{IsIndexed, in_group}
use contexide.Storage.Indexed.Listing.{get-remove_all, count-remove_all, keys_of-list}

module _ {K G V : Type 0} ⦃e : Eq K⦄ ⦃d : Eq G⦄ where
  abbrev without_group : Repo K G V → G → Repo K G V
  without_group repo g = record {
    by_id = (remove_all (bucket repo g) repo.by_id 0).0;
    index = HashMap.remove g repo.index;
  }

  delete_group-eq :
      (repo : Repo K G V) (g : G)
      → delete_group repo g ≡ (without_group repo g, (remove_all (bucket repo g) repo.by_id 0).1)
  unfolding delete_group remove_all
  delete_group-eq repo g = elim (List-cases (bucket repo g)) [
    | inl none_left ↦ rw (none_left, delete_group) refl
    | inr (k, ks, some_left) ↦ rw (some_left, delete_group) refl
  ]

module _ {K G V : Type 0} ⦃e : Eq K⦄ ⦃d : Eq G⦄ (schema : Schema K G V) where
  open schema use {key, group}

  module _ (repo : Repo K G V) (indexed : IsIndexed schema repo) where
    get-without_group :
        (g : G) (k : K)
        → get (without_group repo g) k
          ≡ (if in_group schema g (get repo k) then none else get repo k)
    get-without_group g k =
        ground (arith, get-remove_all (bucket repo g) repo.by_id 0 k, indexed.listed g k)

    -- An entity is in one group.
    in_both :
        (g h : G) (o : Option V) → in_group schema g o ≡ true → in_group schema h o ≡ true → g ≡ h
    in_both g h none a b = absurd cc
    in_both g h (some v) a b = sym ((==_iff (group v) g).0 a) ∙ (==_iff (group v) h).0 b

    without_group-IsIndexed : (g : G) → IsIndexed schema (without_group repo g)
    without_group-IsIndexed g = record {
      owned = λ k v h. ground (arith, get-without_group g k, indexed.owned k v);
      listed = λ h k. ground (
        arith,
        get-without_group g k,
        get-remove g h repo.index,
        ==_iff g h,
        indexed.listed g k,
        indexed.listed h k,
        in_both g h (get repo k),
      );
      distinct = λ h. ground (arith, get-remove g h repo.index, indexed.distinct h);
    }

    bucket-stored :
        (g : G) (k : K) → contains k (bucket repo g) ≡ true → is_some (get repo k) ≡ true
    bucket-stored g k h = ground (arith, indexed.listed g k)

    -- Exactly the group's entities are removed, and their number is returned.
    pub delete_group_lem :
        (g : G)
        → ((k : K)
            → get (delete_group repo g).0 k
              ≡ (if in_group schema g (get repo k) then none else get repo k))
          × ((delete_group repo g).1 ≡ length (list repo g))
    delete_group_lem g = (
      λ k. ap (λ r. get r.0 k) (delete_group-eq repo g) ∙ get-without_group g k,
      ap (λ r. r.1) (delete_group-eq repo g)
          ∙ count-remove_all (bucket repo g) repo.by_id 0 (indexed.distinct g) (bucket-stored g)
          ∙ zero-add (length (bucket repo g))
          ∙ ap length (sym (keys_of-list schema repo indexed g))
          ∙ length-map (list repo g) key,
    )

    pub delete_group-IsIndexed : (g : G) → IsIndexed schema (delete_group repo g).0
    delete_group-IsIndexed g = rw (delete_group-eq repo g) (without_group-IsIndexed g)

    pub update-IsIndexed :
        (id : K) (change : V → V)
        → ((v : V) → (key (change v) ≡ key v) × (group (change v) ≡ group v))
        → IsIndexed schema (update repo id change).0
    unfolding update
    update-IsIndexed id change keeps = elim (Option-cases (get repo id)) [
      | inl absent ↦ rw (absent, update) indexed
      | inr (old, found) ↦
          rw (found, update)
            (record {
              owned = λ k v h. ground (
                arith,
                get-insert id k (change old) repo.by_id,
                ==_iff id k,
                keeps old,
                indexed.owned id old found,
                indexed.owned k v,
              );
              listed = λ g k. ground (
                arith,
                get-insert id k (change old) repo.by_id,
                ==_iff id k,
                keeps old,
                indexed.listed g k,
              );
              distinct = indexed.distinct;
            })
    ]
