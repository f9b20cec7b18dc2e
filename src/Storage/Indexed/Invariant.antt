-- ===== src/Storage/Indexed/Invariant.antt =====
-- What every change of a repository keeps: the index names the keys of each group's entities, once.
use contexide.Prelude.{
  ◌≡◌, refl, ap, ◌∙◌, inl, inr, Bool, true, false, ◌&&◌, ◌||◌, Option, none, some, List, arith, Eq,
  ◌==◌, ==_iff, if◌then◌else◌, Option-cases, Bool-cases,
}
use contexide.HashMap
use contexide.HashMap.{HashMap, get-insert, get-remove}
use contexide.Storage.Buckets.{
  Bucket, contains, is_distinct, contains-swap_remove, swap_remove-is_distinct,
}
use contexide.Storage.Indexed.{
  Schema, Repo, bucket, get, new, index_add, index_remove, save, delete,
}
use contexide.Storage.Indexed.Index.{bucket_of, bucket-index_add, bucket-index_remove}

module _ {K G V : Type 0} ⦃e : Eq K⦄ ⦃d : Eq G⦄ (schema : Schema K G V) where
  open schema use {key, group}

  abbrev pub in_group : G → Option V → Bool
  in_group g none = false
  in_group g (some v) = group v == g

  pub record IsIndexed (repo : Repo K G V) : Type 0 where
    pub owned : (k : K) (v : V) → get repo k ≡ some v → key v ≡ k
    pub listed : (g : G) (k : K) → contains k (bucket repo g) ≡ in_group g (get repo k)
    pub distinct : (g : G) → is_distinct (bucket repo g) ≡ true

  pub new-IsIndexed : IsIndexed new
  unfolding HashMap.get
  new-IsIndexed = record { owned = λ k v h. cc; listed = λ g k. refl; distinct = λ g. refl }

  module _ (kind : Bucket K) (repo : Repo K G V) (indexed : IsIndexed repo) where
    owned-insert :
        (w : V) (k : K) (v : V)
        → HashMap.get k (HashMap.insert (key w) w repo.by_id) ≡ some v
        → key v ≡ k
    owned-insert w k v h =
        ground (arith, get-insert (key w) k w repo.by_id, ==_iff (key w) k, indexed.owned k v)

    -- A bucket after a key is added, and before that maybe removed from another.
    pub contains-index_add :
        (m : HashMap G (List K)) (g h : G) (id k : K)
        → contains k (bucket_of h (index_add kind g id m))
          ≡ (if g == h then id == k || contains k (bucket_of g m) else contains k (bucket_of h m))
    contains-index_add m g h id k =
        ground (arith, bucket-index_add kind g h id m, kind.contains-add id k (bucket_of g m))

    pub contains-index_remove :
        (g h : G) (id k : K)
        → contains k (bucket_of h (index_remove g id repo.index))
          ≡ (if g == h && id == k then false else contains k (bucket repo h))
    contains-index_remove g h id k = ground (
      arith,
      ==_iff g h,
      bucket-index_remove g h id repo.index,
      contains-swap_remove id k (bucket repo g) (indexed.distinct g),
    )

    pub index_remove-is_distinct :
        (g h : G) (id : K) → is_distinct (bucket_of h (index_remove g id repo.index)) ≡ true
    index_remove-is_distinct g h id = ground (
      arith,
      indexed.distinct h,
      bucket-index_remove g h id repo.index,
      swap_remove-is_distinct id (bucket repo g) (indexed.distinct g),
    )

    pub index_add-is_distinct :
        (m : HashMap G (List K)) (g h : G) (id : K)
        → ((i : G) → is_distinct (bucket_of i m) ≡ true)
        → contains id (bucket_of g m) ≡ false
        → is_distinct (bucket_of h (index_add kind g id m)) ≡ true
    index_add-is_distinct m g h id each out = ground (
      arith,
      each h,
      bucket-index_add kind g h id m,
      kind.add-is_distinct id (bucket_of g m) (each g) out,
    )

    save-IsIndexed_new :
        (w : V)
        → get repo (key w) ≡ none
        → IsIndexed (record {
          by_id = HashMap.insert (key w) w repo.by_id;
          index = index_add kind (group w) (key w) repo.index;
        })
    save-IsIndexed_new w absent = record {
      owned = owned-insert w;
      listed = λ g k. ground (
        arith,
        contains-index_add repo.index (group w) g (key w) k,
        get-insert (key w) k w repo.by_id,
        ==_iff (key w) k,
        ==_iff (group w) g,
        indexed.listed g k,
      );
      distinct = λ g.
          index_add-is_distinct repo.index (group w) g (key w) indexed.distinct
            (indexed.listed (group w) (key w) ∙ ap (in_group (group w)) absent);
    }

    save-IsIndexed_same :
        (w old : V)
        → get repo (key w) ≡ some old
        → (group old == group w) ≡ true
        → IsIndexed (record repo { by_id = HashMap.insert (key w) w repo.by_id })
    save-IsIndexed_same w old found same = record {
      owned = owned-insert w;
      listed = λ g k. ground (
        arith,
        get-insert (key w) k w repo.by_id,
        ==_iff (key w) k,
        ==_iff (group old) (group w),
        indexed.listed g k,
      );
      distinct = indexed.distinct;
    }

    save-IsIndexed_moved :
        (w old : V)
        → get repo (key w) ≡ some old
        → (group old == group w) ≡ false
        → IsIndexed (record {
          by_id = HashMap.insert (key w) w repo.by_id;
          index = index_add kind (group w) (key w) (index_remove (group old) (key w) repo.index);
        })
    save-IsIndexed_moved w old found other = record {
      owned = owned-insert w;
      listed = λ g k. ground (
        arith,
        contains-index_add (index_remove (group old) (key w) repo.index) (group w) g (key w) k,
        contains-index_remove (group old) (group w) (key w) k,
        contains-index_remove (group old) g (key w) k,
        get-insert (key w) k w repo.by_id,
        ==_iff (key w) k,
        ==_iff (group w) g,
        ==_iff (group old) g,
        indexed.listed g k,
      );
      distinct = λ g.
          index_add-is_distinct (index_remove (group old) (key w) repo.index) (group w) g (key w)
            (λ i. index_remove-is_distinct (group old) i (key w))
            (ground (
              arith,
              contains-index_remove (group old) (group w) (key w) (key w),
              indexed.listed (group w) (key w),
            ));
    }

    pub save-IsIndexed : (w : V) → IsIndexed (save kind schema repo w)
    unfolding save
    save-IsIndexed w = elim (Option-cases (get repo (key w))) [
      | inl absent ↦ rw (absent, save) (save-IsIndexed_new w absent)
      | inr (old, found) ↦ elim (Bool-cases (group old == group w)) [
        | inl same ↦ rw (found, same, save) (save-IsIndexed_same w old found same)
        | inr other ↦ rw (found, other, save) (save-IsIndexed_moved w old found other)
      ]
    ]

    delete-IsIndexed_found :
        (id : K) (old : V)
        → get repo id ≡ some old
        → IsIndexed (record {
          by_id = HashMap.remove id repo.by_id;
          index = index_remove (group old) id repo.index;
        })
    delete-IsIndexed_found id old found = record {
      owned = λ k v h. ground (arith, get-remove id k repo.by_id, indexed.owned k v);
      listed = λ g k. ground (
        arith,
        contains-index_remove (group old) g id k,
        get-remove id k repo.by_id,
        ==_iff id k,
        indexed.listed g k,
      );
      distinct = λ g. index_remove-is_distinct (group old) g id;
    }

    pub delete-IsIndexed : (id : K) → IsIndexed (delete kind schema repo id).0
    unfolding delete
    delete-IsIndexed id = elim (Option-cases (get repo id)) [
      | inl absent ↦ rw (absent, delete) indexed
      | inr (old, found) ↦ rw (found, delete) (delete-IsIndexed_found id old found)
    ]
