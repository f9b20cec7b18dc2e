-- ===== src/Storage/Repos/Assets.antt =====
-- `MemAssetsRepo` of crates/contexide-storage-pg/src/assets/mem.rs.
use contexide.Prelude.{ℕ, String, Bool, Option, some, List, nat_eq}
use contexide.Core.Entities.{Asset}
use contexide.Storage.Buckets.{vec}
use contexide.Storage.Indexed
use contexide.Storage.Indexed.{Repo, Schema}

abbrev pub MemAssetsRepo : Type 0
MemAssetsRepo = Repo ℕ ℕ Asset

abbrev pub assets : Schema ℕ ℕ Asset
assets = record { key = λ e. e.id; group = λ e. e.document_id }

abbrev pub get : MemAssetsRepo → ℕ → Option Asset
get repo id = Indexed.get repo id

abbrev pub save : MemAssetsRepo → Asset → MemAssetsRepo
save repo entity = Indexed.save vec assets repo entity

abbrev pub delete : MemAssetsRepo → ℕ → MemAssetsRepo × Bool
delete repo id = Indexed.delete vec assets repo id

abbrev pub list_by_document : MemAssetsRepo → ℕ → List Asset
list_by_document repo document_id = Indexed.list repo document_id

abbrev pub set_storage_key : MemAssetsRepo → ℕ → String → MemAssetsRepo × Bool
set_storage_key repo id storage_key =
    Indexed.update repo id (λ a. record a { storage_key = some storage_key })
