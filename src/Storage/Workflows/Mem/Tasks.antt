-- ===== src/Storage/Workflows/Mem/Tasks.antt =====
-- `MemTaskRepo` of crates/contexide-storage-pg/src/workflows/mem.rs, and `list_pending` of
-- crates/contexide-workflow-executor/src/storage.rs.
use contexide.Prelude.{
  ℕ, Bool, true, false, Option, List, nat_eq, ◌==◌, leb, filter, sort_by, truncate, is_some,
}
use contexide.HashMap
use contexide.HashMap.{HashMap, values}
use contexide.Workflow.State.TaskStatus.{TaskStatus}
use contexide.Storage.Workflows.{Task}

abbrev pub MemTaskRepo : Type 0 → Type 0
MemTaskRepo Value = HashMap ℕ (Task Value)

abbrev pub is_pending : TaskStatus → Bool
is_pending TaskStatus.pending = true
is_pending _ = false

module _ {Value : Type 0} where
  abbrev pub get : MemTaskRepo Value → ℕ → Option (Task Value)
  get repo id = HashMap.get id repo

  abbrev pub save : MemTaskRepo Value → Task Value → MemTaskRepo Value
  save repo entity = HashMap.insert entity.id entity repo

  pub delete : MemTaskRepo Value → ℕ → MemTaskRepo Value × Bool
  delete repo id = (HashMap.remove id repo, is_some (HashMap.get id repo))

  abbrev pub list_all : MemTaskRepo Value → List (Task Value)
  list_all repo = values repo

  unfoldable pub list_by_dag_run : MemTaskRepo Value → ℕ → List (Task Value)
  list_by_dag_run repo dag_run_id = filter (λ t. t.dag_run_id == dag_run_id) (values repo)

  unfoldable pub list_pending : MemTaskRepo Value → Option ℕ → List (Task Value)
  list_pending repo limit =
      truncate limit
        (sort_by (λ a b. leb a.id b.id) (filter (λ t. is_pending t.status) (list_all repo)))
