-- ===== src/Storage/Indexed/History.antt =====
-- Repositories after any sequence of operations.
use contexide.Prelude.{
  ◌≡◌, ◌↔◌, Bool, true, some, List, [], ◌∷◌, map, Memᴰ, Eq, sort_by, is_sorted, IsTotal,
  sort_by-is_sorted,
}
use contexide.Storage.Buckets.{Bucket, is_distinct}
use contexide.Storage.Indexed.{Schema, Repo, new, get, list, save, delete, delete_group, update}
use contexide.Storage.Indexed.Invariant.{IsIndexed, new-IsIndexed, save-IsIndexed, delete-IsIndexed}
use contexide.Storage.Indexed.Listing.{sorted_list_iff, sorted_list-is_distinct}
use contexide.Storage.Indexed.Groups.{delete_group-IsIndexed, update-IsIndexed}

module _ {K G V : Type 0} ⦃e : Eq K⦄ ⦃d : Eq G⦄ (kind : Bucket K) (schema : Schema K G V) where
  open schema use {key, group}

  -- A change of fields leaves the key and the group as they are.
  pub data Op : Type 0 where
    saved : V → Op
    deleted : K → Op
    group_deleted : G → Op
    updated :
        K
        → (change : V → V) → ((v : V) → (key (change v) ≡ key v) × (group (change v) ≡ group v))
        → Op

  unfoldable pub apply : Repo K G V → Op → Repo K G V
  apply repo (saved v) = save kind schema repo v
  apply repo (deleted id) = (delete kind schema repo id).0
  apply repo (group_deleted g) = (delete_group repo g).0
  apply repo (updated id change keeps) = (update repo id change).0

  unfoldable pub after : Repo K G V → List Op → Repo K G V
  after repo [] = repo
  after repo (o ∷ os) = after (apply repo o) os

  apply-IsIndexed :
      (repo : Repo K G V) (o : Op) → IsIndexed schema repo → IsIndexed schema (apply repo o)
  unfolding apply
  apply-IsIndexed repo (saved v) indexed = save-IsIndexed schema kind repo indexed v
  apply-IsIndexed repo (deleted id) indexed = delete-IsIndexed schema kind repo indexed id
  apply-IsIndexed repo (group_deleted g) indexed = delete_group-IsIndexed schema repo indexed g
  apply-IsIndexed repo (updated id change keeps) indexed =
      update-IsIndexed schema repo indexed id change keeps

  after-IsIndexed :
      (repo : Repo K G V) (os : List Op) → IsIndexed schema repo → IsIndexed schema (after repo os)
  unfolding after
  after-IsIndexed repo [] indexed = indexed
  after-IsIndexed repo (o ∷ os) indexed =
      after-IsIndexed (apply repo o) os (apply-IsIndexed repo o indexed)

  -- Whatever is saved, deleted and changed, from an empty repository on: each bucket of the index
  -- names the keys of the entities of its group, each once, and entities are stored under their keys.
  pub history-IsIndexed : (os : List Op) → IsIndexed schema (after new os)
  history-IsIndexed os = after-IsIndexed new os (new-IsIndexed schema)

  -- What is listed for a group: the stored entities of that group, each once, in the order `le`.
  abbrev pub Enumerates : (V → V → Bool) → Repo K G V → G → List V → Type 0
  Enumerates le repo g vs =
      ((v : V) → Memᴰ v vs ↔ ((get repo (key v) ≡ some v) × (group v ≡ g)))
      × (is_distinct (map key vs) ≡ true)
      × (is_sorted le vs ≡ true)

  pub sorted_list-Enumerates :
      (le : V → V → Bool)
      → IsTotal le
      → (repo : Repo K G V) (g : G) → IsIndexed schema repo
      → Enumerates le repo g (sort_by le (list repo g))
  sorted_list-Enumerates le total repo g indexed = (
    sorted_list_iff schema repo indexed le g,
    sorted_list-is_distinct schema repo indexed le g,
    sort_by-is_sorted le (list repo g) total,
  )
