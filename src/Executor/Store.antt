-- ===== src/Executor/Store.antt =====
-- What the executor's repositories hold together, and the supply of new ids: `TaskId::new()` and the
-- like are calls of the crate `uuid`, the n-th of which gives `uuid n`.
pub mod Filed
pub mod Tally
use contexide.Prelude.{ℕ, List, [], ◌∷◌, nat_eq}
use contexide.Storage.Workflows.{Task}
use contexide.Storage.Workflows.Mem.Tasks
use contexide.Storage.Workflows.Mem.DagRuns.{MemDagRunRepo}
use contexide.Storage.Workflows.Mem.Tasks.{MemTaskRepo}
use contexide.Storage.Workflows.Mem.TaskRuns.{MemTaskRunRepo}

pub record Store (Value : Type 0) : Type 0 where
  pub dag_runs : MemDagRunRepo Value
  pub tasks : MemTaskRepo Value
  pub task_runs : MemTaskRunRepo
  -- How many ids were made so far.
  pub issued : ℕ

-- `for task in tasks { self.tasks.save(task).await?; }`
unfoldable pub save_all : {Value : Type 0} → Store Value → List (Task Value) → Store Value
save_all store [] = store
save_all store (task ∷ tasks) =
    save_all (record store { tasks = Tasks.save store.tasks task }) tasks
