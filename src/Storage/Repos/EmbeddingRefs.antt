-- ===== src/Storage/Repos/EmbeddingRefs.antt =====
-- `MemEmbeddingsRepo` of crates/contexide-storage-pg/src/embedding_refs/mem.rs.
use contexide.Prelude.{
  ℕ, Bool, Option, none, some, List, eqb, leb, if◌then◌else◌, sort_by, nat_eq, pair_eq,
}
use contexide.HashMap
use contexide.Core.Entities.{EmbeddingRef}
use contexide.Storage.Buckets.{vec}
use contexide.Storage.Indexed
use contexide.Storage.Indexed.{Repo, Schema}

-- The key is the chunk with the embedding set.
abbrev pub Key : Type 0
Key = ℕ × ℕ

abbrev pub MemEmbeddingsRepo : Type 0
MemEmbeddingsRepo = Repo Key ℕ EmbeddingRef

abbrev pub embeddings : Schema Key ℕ EmbeddingRef
embeddings = record { key = λ e. (e.chunk_id, e.embedding_set_id); group = λ e. e.embedding_set_id }

abbrev pub get : MemEmbeddingsRepo → Key → Option EmbeddingRef
get repo id = Indexed.get repo id

-- An entity that is there has the same key, and so the same embedding set.
abbrev pub save : MemEmbeddingsRepo → EmbeddingRef → MemEmbeddingsRepo
save repo entity = elim (get repo (embeddings.key entity)) [
  | none ↦ record {
    by_id = HashMap.insert (embeddings.key entity) entity repo.by_id;
    index = Indexed.index_add vec entity.embedding_set_id (embeddings.key entity) repo.index;
  }
  | some old ↦ record repo { by_id = HashMap.insert (embeddings.key entity) entity repo.by_id }
]

abbrev pub delete : MemEmbeddingsRepo → Key → MemEmbeddingsRepo × Bool
delete repo id = Indexed.delete vec embeddings repo id

abbrev pub by_key : EmbeddingRef → EmbeddingRef → Bool
by_key a b =
    if eqb a.chunk_id b.chunk_id
    then leb a.embedding_set_id b.embedding_set_id
    else leb a.chunk_id b.chunk_id

abbrev pub list_by_set : MemEmbeddingsRepo → ℕ → List EmbeddingRef
list_by_set repo embedding_set_id = sort_by by_key (Indexed.list repo embedding_set_id)

abbrev pub delete_by_set : MemEmbeddingsRepo → ℕ → MemEmbeddingsRepo × ℕ
delete_by_set repo embedding_set_id = Indexed.delete_group repo embedding_set_id
