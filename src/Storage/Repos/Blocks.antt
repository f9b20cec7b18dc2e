-- ===== src/Storage/Repos/Blocks.antt =====
-- `MemBlocksRepo` of crates/contexide-storage-pg/src/blocks/mem.rs.
use contexide.Prelude.{ℕ, Bool, Option, List, eqb_ℤ, leb_ℤ, leb, if◌then◌else◌, sort_by, nat_eq}
use contexide.Core.Entities.{Block}
use contexide.Storage.Buckets.{vec}
use contexide.Storage.Indexed
use contexide.Storage.Indexed.{Repo, Schema}

abbrev pub MemBlocksRepo : Type 0
MemBlocksRepo = Repo ℕ ℕ Block

abbrev pub blocks : Schema ℕ ℕ Block
blocks = record { key = λ e. e.id; group = λ e. e.asset_id }

abbrev pub get : MemBlocksRepo → ℕ → Option Block
get repo id = Indexed.get repo id

abbrev pub save : MemBlocksRepo → Block → MemBlocksRepo
save repo entity = Indexed.save vec blocks repo entity

abbrev pub delete : MemBlocksRepo → ℕ → MemBlocksRepo × Bool
delete repo id = Indexed.delete vec blocks repo id

-- By the number, and by the id where the numbers are equal.
abbrev pub by_order : Block → Block → Bool
by_order a b = if eqb_ℤ a.order_no b.order_no then leb a.id b.id else leb_ℤ a.order_no b.order_no

abbrev pub list_by_asset : MemBlocksRepo → ℕ → List Block
list_by_asset repo asset_id = sort_by by_order (Indexed.list repo asset_id)

abbrev pub delete_by_asset : MemBlocksRepo → ℕ → MemBlocksRepo × ℕ
delete_by_asset repo asset_id = Indexed.delete_group repo asset_id
