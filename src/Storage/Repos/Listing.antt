-- ===== src/Storage/Repos/Listing.antt =====
-- What the repositories list and remove for a group, after any sequence of operations.
use contexide.Prelude.{
  ℕ, ◌≡◌, refl, sym, ◌∙◌, Bool, true, false, none, List, arith, ℤ, pos, negsuc, leb, leb_ℤ, eqb_ℤ,
  if◌then◌else◌, length, nat_eq, pair_eq, IsTotal, length-sort_by,
}
use contexide.Storage.Buckets.{vec}
use contexide.Storage.Indexed
use contexide.Storage.Indexed.{new, get}
use contexide.Storage.Indexed.Invariant.{in_group}
use contexide.Storage.Indexed.Groups.{delete_group_lem}
use contexide.Storage.Indexed.History.{
  Op, after, history-IsIndexed, Enumerates, sorted_list-Enumerates,
}
use contexide.Storage.Repos.Blocks
use contexide.Storage.Repos.Blocks.{blocks}
use contexide.Storage.Repos.Chunks
use contexide.Storage.Repos.Chunks.{chunks}

by_ℤ_total :
    (a b : ℤ) (p q : Bool)
    → (p ≡ false → q ≡ true)
    → (if eqb_ℤ a b then p else leb_ℤ a b) ≡ false
    → (if eqb_ℤ b a then q else leb_ℤ b a) ≡ true
by_ℤ_total (pos a) (pos b) p q t h = ground arith
by_ℤ_total (pos a) (negsuc b) p q t h = refl
by_ℤ_total (negsuc a) (pos b) p q t h = cc
by_ℤ_total (negsuc a) (negsuc b) p q t h = ground arith

chunks_order-IsTotal : IsTotal Chunks.by_order
chunks_order-IsTotal a b h =
    by_ℤ_total a.order_no b.order_no (leb a.id b.id) (leb b.id a.id) (λ h. ground arith) h

-- After any sequence of saves, deletions and changes from an empty repository on, `list_by_set` gives
-- the chunks of the set that are stored, each once, ordered by their numbers, and by their ids where
-- these are equal.
pub list_by_set-Enumerates :
    (os : List (Op vec chunks)) (chunk_set_id : ℕ)
    → Enumerates vec chunks Chunks.by_order
        (after vec chunks new os)
        chunk_set_id
        (Chunks.list_by_set (after vec chunks new os) chunk_set_id)
list_by_set-Enumerates os chunk_set_id =
    sorted_list-Enumerates vec chunks Chunks.by_order chunks_order-IsTotal (after vec chunks new os)
      chunk_set_id (history-IsIndexed vec chunks os)

-- After any sequence of operations from an empty repository on, `delete_by_asset` removes exactly the
-- blocks of the asset, and returns how many `list_by_asset` gave for it.
pub delete_by_asset_lem :
    (os : List (Op vec blocks)) (asset_id : ℕ)
    → let repo = after vec blocks new os in
      ((k : ℕ)
        → Blocks.get (Blocks.delete_by_asset repo asset_id).0 k
          ≡ (if in_group blocks asset_id (Blocks.get repo k) then none else Blocks.get repo k))
      × ((Blocks.delete_by_asset repo asset_id).1 ≡ length (Blocks.list_by_asset repo asset_id))
delete_by_asset_lem os asset_id =
    let repo = after vec blocks new os in
    let (gone, counted) = delete_group_lem blocks repo (history-IsIndexed vec blocks os) asset_id in
    (gone, counted ∙ sym (length-sort_by Blocks.by_order (Indexed.list repo asset_id)))
