-- ===== src/Storage/Workflows/Mem/DagRuns.antt =====
-- `MemDagRunRepo` of crates/contexide-storage-pg/src/workflows/mem.rs.
use contexide.Prelude.{ℕ, Bool, Option, List, nat_eq, ◌==◌, filter, is_some}
use contexide.HashMap
use contexide.HashMap.{HashMap, values}
use contexide.Storage.Workflows.{DagRun}

abbrev pub MemDagRunRepo : Type 0 → Type 0
MemDagRunRepo Value = HashMap ℕ (DagRun Value)

module _ {Value : Type 0} where
  abbrev pub get : MemDagRunRepo Value → ℕ → Option (DagRun Value)
  get repo id = HashMap.get id repo

  abbrev pub save : MemDagRunRepo Value → DagRun Value → MemDagRunRepo Value
  save repo entity = HashMap.insert entity.id entity repo

  pub delete : MemDagRunRepo Value → ℕ → MemDagRunRepo Value × Bool
  delete repo id = (HashMap.remove id repo, is_some (HashMap.get id repo))

  pub list_all : MemDagRunRepo Value → List (DagRun Value)
  list_all repo = values repo

  pub list_by_tenant : MemDagRunRepo Value → ℕ → List (DagRun Value)
  list_by_tenant repo tenant_id = filter (λ r. r.tenant_id == tenant_id) (values repo)
