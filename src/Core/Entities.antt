-- ===== src/Core/Entities.antt =====
-- The entities of crates/contexide-core/src/storage/entities.rs. Ids are the numbers that UUIDs are.
pub mod JobKind
pub mod JobStatus
use contexide.Prelude.{ℕ, String, Bool, Option, ℤ}
use contexide.Core.Types.AssetSource.{AssetSource}
use contexide.Core.Types.BlockModality.{BlockModality}
use contexide.Core.Types.DocumentStatus.{DocumentStatus}

pub record Tenant : Type 0 where
  pub id : ℕ
  pub name : String
  pub email : String

pub record Document : Type 0 where
  pub id : ℕ
  pub tenant_id : ℕ
  pub title : String
  pub status : DocumentStatus

pub record Asset : Type 0 where
  pub id : ℕ
  pub tenant_id : ℕ
  pub document_id : ℕ
  pub source : AssetSource
  pub original_uri : Option String
  pub content_type : String
  pub size_bytes : ℕ
  pub content_hash : String
  pub storage_key : Option String

pub record Block : Type 0 where
  pub id : ℕ
  pub tenant_id : ℕ
  pub asset_id : ℕ
  pub modality : BlockModality
  pub order_no : ℤ
  pub text : Option String
  pub meta_json : Option String

pub record ChunkSet : Type 0 where
  pub id : ℕ
  pub tenant_id : ℕ
  pub document_id : ℕ
  pub profile_hash : String
  pub finalized : Bool

pub record Chunk : Type 0 where
  pub id : ℕ
  pub chunk_set_id : ℕ
  pub tenant_id : ℕ
  pub order_no : ℤ
  pub byte_start : ℤ
  pub byte_end : ℤ
  pub text : String
  pub meta_json : Option String

pub record EmbeddingSet : Type 0 where
  pub id : ℕ
  pub tenant_id : ℕ
  pub chunk_set_id : ℕ
  pub model_kind : String
  pub model_version : String
  pub dim : ℤ
  pub metric : String
  pub ready : Bool

pub record EmbeddingRef : Type 0 where
  pub chunk_id : ℕ
  pub embedding_set_id : ℕ
  pub tenant_id : ℕ
  pub vector_id : String

pub record Job : Type 0 where
  pub id : ℕ
  pub tenant_id : ℕ
  pub kind : JobKind.JobKind
  pub status : JobStatus.JobStatus
  pub payload_json : Option String
