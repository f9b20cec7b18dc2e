-- ===== src/Storage/Repos/Documents.antt =====
-- `MemDocumentsRepo` of crates/contexide-storage-pg/src/documents/mem.rs.
use contexide.Prelude.{
  ℕ, Bool, true, false, Option, none, some, eqb, if◌then◌else◌, is_some, nat_eq,
}
use contexide.HashMap
use contexide.HashMap.{HashMap}
use contexide.Core.Entities.{Document}
use contexide.Core.Types.DocumentStatus.{DocumentStatus}

abbrev pub MemDocumentsRepo : Type 0
MemDocumentsRepo = HashMap ℕ Document

abbrev pub get : MemDocumentsRepo → ℕ → Option Document
get repo id = HashMap.get id repo

-- A document with the nil id gets a new one, `fresh`.
abbrev pub identified : ℕ → Document → Document
identified fresh entity = if eqb entity.id 0 then record entity { id = fresh } else entity

unfoldable pub save : MemDocumentsRepo → ℕ → Document → MemDocumentsRepo × Document
save repo fresh entity =
    let stored = identified fresh entity in (HashMap.insert stored.id stored repo, stored)

unfoldable pub delete : MemDocumentsRepo → ℕ → MemDocumentsRepo × Bool
delete repo id = (HashMap.remove id repo, is_some (HashMap.get id repo))

unfoldable pub set_status : MemDocumentsRepo → ℕ → DocumentStatus → MemDocumentsRepo × Bool
set_status repo id status = elim (get repo id) [
  | some d ↦ (HashMap.insert id (record d { status = status }) repo, true)
  | none ↦ (repo, false)
]
