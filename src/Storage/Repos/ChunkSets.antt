-- ===== src/Storage/Repos/ChunkSets.antt =====
-- `MemChunkSetsRepo` of crates/contexide-storage-pg/src/chunk_sets/mem.rs.
use contexide.Prelude.{ℕ, String, Bool, true, false, Option, List, leb, sort_by, nat_eq}
use contexide.Core.Entities.{ChunkSet}
use contexide.Storage.Buckets.{vec}
use contexide.Storage.Indexed
use contexide.Storage.Indexed.{Repo, Schema}

abbrev pub MemChunkSetsRepo : Type 0
MemChunkSetsRepo = Repo ℕ ℕ ChunkSet

abbrev pub chunk_sets : Schema ℕ ℕ ChunkSet
chunk_sets = record { key = λ e. e.id; group = λ e. e.document_id }

abbrev pub get : MemChunkSetsRepo → ℕ → Option ChunkSet
get repo id = Indexed.get repo id

abbrev pub save : MemChunkSetsRepo → ChunkSet → MemChunkSetsRepo
save repo entity = Indexed.save vec chunk_sets repo entity

abbrev pub delete : MemChunkSetsRepo → ℕ → MemChunkSetsRepo × Bool
delete repo id = Indexed.delete vec chunk_sets repo id

abbrev pub by_id : ChunkSet → ChunkSet → Bool
by_id a b = leb a.id b.id

abbrev pub list_by_document : MemChunkSetsRepo → ℕ → List ChunkSet
list_by_document repo document_id = sort_by by_id (Indexed.list repo document_id)

-- `id` is the one that `ChunkSetId::new()` makes.
abbrev pub create : MemChunkSetsRepo → ℕ → ℕ → ℕ → String → MemChunkSetsRepo × ℕ
create repo id tenant_id document_id profile_hash = (
  save repo (record {
    id = id;
    tenant_id = tenant_id;
    document_id = document_id;
    profile_hash = profile_hash;
    finalized = false;
  }),
  id,
)

abbrev pub mark_finalized : MemChunkSetsRepo → ℕ → MemChunkSetsRepo × Bool
mark_finalized repo id = Indexed.update repo id (λ cs. record cs { finalized = true })
