-- ===== src/Storage/Indexed.antt =====
-- What the in-memory repositories of crates/contexide-storage-pg/src share: the entities by their keys,
-- and an index from what groups them (a document, a set, an asset) to a bucket of keys. Their files
-- are this text with the names of the entity put in.
pub mod Index
pub mod Invariant
pub mod Listing
pub mod Groups
pub mod History
use contexide.Prelude.{
  ℕ, ◌+◌, Bool, true, false, Option, none, some, List, [], ◌∷◌, Eq, ◌==◌, if◌then◌else◌, is_some,
}
use contexide.HashMap
use contexide.HashMap.{HashMap}
use contexide.Storage.Buckets.{Bucket, swap_remove}

-- An entity's key, and what it is grouped by.
pub record Schema (K G V : Type 0) : Type 0 where
  pub key : V → K
  pub group : V → G

pub record Repo (K G V : Type 0) : Type 0 where
  pub by_id : HashMap K V
  pub index : HashMap G (List K)

-- `iter().filter_map(f)`
abbrev pub filter_map {ℓ} : {A B : Type ℓ} → (A → Option B) → List A → List B
filter_map f [] = []
filter_map f (x ∷ xs) = let rest = filter_map f xs in elim (f x) [ some y ↦ y ∷ rest | none ↦ rest ]

abbrev pub or_default {ℓ} : {A : Type ℓ} → Option (List A) → List A
or_default none = []
or_default (some l) = l

module _ {K G : Type 0} ⦃e : Eq K⦄ ⦃d : Eq G⦄ (kind : Bucket K) where
  unfoldable pub index_add : G → K → HashMap G (List K) → HashMap G (List K)
  index_add g id m = HashMap.insert g (kind.add id (or_default (HashMap.get g m))) m

module _ {K G : Type 0} ⦃e : Eq K⦄ ⦃d : Eq G⦄ where
  -- The bucket after `swap_remove`; an empty one is dropped.
  unfoldable pub put_back : G → List K → HashMap G (List K) → HashMap G (List K)
  put_back g [] m = HashMap.remove g m
  put_back g (k ∷ ks) m = HashMap.insert g (k ∷ ks) m

  unfoldable pub index_remove : G → K → HashMap G (List K) → HashMap G (List K)
  index_remove g id m = elim (HashMap.get g m) [
    | some bucket ↦ put_back g (swap_remove id bucket) m
    | none ↦ m
  ]

module _ {K V : Type 0} ⦃e : Eq K⦄ where
  -- The loop of the removal of a group: the entities left, and how many were removed.
  unfoldable pub remove_all : List K → HashMap K V → ℕ → HashMap K V × ℕ
  remove_all [] m removed = (m, removed)
  remove_all (id ∷ ids) m removed =
      remove_all ids (HashMap.remove id m)
        (if is_some (HashMap.get id m) then removed + 1 else removed)

module _ {K G V : Type 0} ⦃e : Eq K⦄ ⦃d : Eq G⦄ where
  abbrev pub new : Repo K G V
  new = record { by_id = []; index = [] }

  abbrev pub get : Repo K G V → K → Option V
  get repo id = HashMap.get id repo.by_id

  abbrev pub bucket : Repo K G V → G → List K
  bucket repo g = or_default (HashMap.get g repo.index)

  -- The entities that the index names for a group, in its order.
  unfoldable pub list : Repo K G V → G → List V
  list repo g = filter_map (get repo) (bucket repo g)

  unfoldable pub delete_group : Repo K G V → G → Repo K G V × ℕ
  delete_group repo g =
      let left = record repo { index = HashMap.remove g repo.index } in
      elim (bucket repo g) [
        | [] ↦ (left, 0)
        | id ∷ ids ↦
            let (m, removed) = remove_all (id ∷ ids) repo.by_id 0 in
            (record left { by_id = m }, removed)
      ]

  -- `get_mut`, with a change of fields that are not indexed.
  unfoldable pub update : Repo K G V → K → (V → V) → Repo K G V × Bool
  update repo id change = elim (get repo id) [
    | some v ↦ (record repo { by_id = HashMap.insert id (change v) repo.by_id }, true)
    | none ↦ (repo, false)
  ]

module _ {K G V : Type 0} ⦃e : Eq K⦄ ⦃d : Eq G⦄ (kind : Bucket K) (schema : Schema K G V) where
  open schema use {key, group}

  -- A new entity is indexed; one that was there is moved to its new group, if that is another.
  unfoldable pub save : Repo K G V → V → Repo K G V
  save repo entity =
      let id = key entity in
      let stored = record repo { by_id = HashMap.insert id entity repo.by_id } in
      elim (get repo id) [
        | none ↦ record stored { index = index_add kind (group entity) id repo.index }
        | some old ↦ if group old == group entity then stored else record stored {
          index = index_add kind (group entity) id (index_remove (group old) id repo.index);
        }
      ]

  unfoldable pub delete : Repo K G V → K → Repo K G V × Bool
  delete repo id = elim (get repo id) [
    | some old ↦ (
      record {
        by_id = HashMap.remove id repo.by_id;
        index = index_remove (group old) id repo.index;
      },
      true,
    )
    | none ↦ (repo, false)
  ]
