-- ===== src/Executor/Planner/Filing.antt =====
-- Planning a run keeps the tasks under their own ids.
use contexide.Prelude.{ℕ, String}
use contexide.Executor.Json.{Json}
use contexide.Executor.Store.{Store}
use contexide.Executor.Store.Filed.{IsFiled, save_all-IsFiled}
use contexide.Executor.Planner.{create_dag_run}

module _ (json : Json) (uuid : ℕ → ℕ) where
  open json use {Value}

  pub create_dag_run-IsFiled :
      (store : Store Value) (tenant_id : ℕ) (profile : String) (input : Value)
      → IsFiled store.tasks
      → IsFiled (create_dag_run json uuid store tenant_id profile input).1.tasks
  unfolding create_dag_run
  create_dag_run-IsFiled store tenant_id profile input filed = save_all-IsFiled _ _ filed
