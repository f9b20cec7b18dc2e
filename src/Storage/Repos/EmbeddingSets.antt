-- ===== src/Storage/Repos/EmbeddingSets.antt =====
-- `MemEmbeddingSetsRepo` of crates/contexide-storage-pg/src/embedding_sets/mem.rs.
use contexide.Prelude.{ℕ, ℤ, String, Bool, true, false, Option, List, leb, sort_by, nat_eq}
use contexide.Core.Entities.{EmbeddingSet}
use contexide.Storage.Buckets.{vec}
use contexide.Storage.Indexed
use contexide.Storage.Indexed.{Repo, Schema}

abbrev pub MemEmbeddingSetsRepo : Type 0
MemEmbeddingSetsRepo = Repo ℕ ℕ EmbeddingSet

abbrev pub embedding_sets : Schema ℕ ℕ EmbeddingSet
embedding_sets = record { key = λ e. e.id; group = λ e. e.chunk_set_id }

abbrev pub get : MemEmbeddingSetsRepo → ℕ → Option EmbeddingSet
get repo id = Indexed.get repo id

abbrev pub save : MemEmbeddingSetsRepo → EmbeddingSet → MemEmbeddingSetsRepo
save repo entity = Indexed.save vec embedding_sets repo entity

abbrev pub delete : MemEmbeddingSetsRepo → ℕ → MemEmbeddingSetsRepo × Bool
delete repo id = Indexed.delete vec embedding_sets repo id

abbrev pub by_id : EmbeddingSet → EmbeddingSet → Bool
by_id a b = leb a.id b.id

abbrev pub list_by_chunk_set : MemEmbeddingSetsRepo → ℕ → List EmbeddingSet
list_by_chunk_set repo chunk_set_id = sort_by by_id (Indexed.list repo chunk_set_id)

-- `id` is the one that `EmbeddingSetId::new()` makes.
abbrev pub create :
    MemEmbeddingSetsRepo → ℕ → ℕ → ℕ → String → String → ℤ → String → MemEmbeddingSetsRepo × ℕ
create repo id tenant_id chunk_set_id model_kind model_version dim metric = (
  save repo (record {
    id = id;
    tenant_id = tenant_id;
    chunk_set_id = chunk_set_id;
    model_kind = model_kind;
    model_version = model_version;
    dim = dim;
    metric = metric;
    ready = false;
  }),
  id,
)

abbrev pub mark_ready : MemEmbeddingSetsRepo → ℕ → MemEmbeddingSetsRepo × Bool
mark_ready repo id = Indexed.update repo id (λ es. record es { ready = true })
