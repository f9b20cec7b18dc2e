-- ===== src/Storage/Repos/Chunks.antt =====
-- `MemChunksRepo` of crates/contexide-storage-pg/src/chunks/mem.rs.
use contexide.Prelude.{ℕ, Bool, Option, List, eqb_ℤ, leb_ℤ, leb, if◌then◌else◌, sort_by, nat_eq}
use contexide.Core.Entities.{Chunk}
use contexide.Storage.Buckets.{vec}
use contexide.Storage.Indexed
use contexide.Storage.Indexed.{Repo, Schema}

abbrev pub MemChunksRepo : Type 0
MemChunksRepo = Repo ℕ ℕ Chunk

abbrev pub chunks : Schema ℕ ℕ Chunk
chunks = record { key = λ e. e.id; group = λ e. e.chunk_set_id }

abbrev pub get : MemChunksRepo → ℕ → Option Chunk
get repo id = Indexed.get repo id

abbrev pub save : MemChunksRepo → Chunk → MemChunksRepo
save repo entity = Indexed.save vec chunks repo entity

abbrev pub delete : MemChunksRepo → ℕ → MemChunksRepo × Bool
delete repo id = Indexed.delete vec chunks repo id

-- By the number, and by the id where the numbers are equal.
abbrev pub by_order : Chunk → Chunk → Bool
by_order a b = if eqb_ℤ a.order_no b.order_no then leb a.id b.id else leb_ℤ a.order_no b.order_no

abbrev pub list_by_set : MemChunksRepo → ℕ → List Chunk
list_by_set repo chunk_set_id = sort_by by_order (Indexed.list repo chunk_set_id)

abbrev pub delete_by_set : MemChunksRepo → ℕ → MemChunksRepo × ℕ
delete_by_set repo chunk_set_id = Indexed.delete_group repo chunk_set_id
