-- ===== src/Executor/Planner/Attempts.antt =====
-- Planning and the attempts in the store.
use contexide.Prelude.{ℕ, ◌+◌, ◌≤◌, ap, inl, String, List, [], ◌∷◌, arith}
use contexide.Storage.Workflows.Mem.DagRuns
use contexide.Storage.Workflows.Mem.TaskRuns
use contexide.Executor.Json.{Json}
use contexide.Executor.Store.{Store}
use contexide.Executor.Planner.{create_dag_run, make_tasks, profile_sequence, new_run}
use contexide.Executor.Scheduler.Ready.Attempts.{IsGrown}
use contexide.Executor.Scheduler.Results.Attempts.{runs-save_all}

module _ (json : Json) (uuid : ℕ → ℕ) where
  open json use {Value}

  pub issued-make_tasks :
      (issued d t : ℕ) (input : Value) (idx : ℕ) (kinds : List String)
      → issued ≤ (make_tasks json uuid issued d t input idx kinds).1
  unfolding make_tasks
  issued-make_tasks issued d t input idx [] = omega arith
  issued-make_tasks issued d t input idx (kind ∷ kinds) =
      omega (arith, issued-make_tasks (issued + 1) d t input (idx + 1) kinds)

  -- Planning a run changes no attempt and makes none.
  pub create_dag_run-IsGrown :
      (store : Store Value) (tenant_id : ℕ) (profile : String) (input : Value)
      → IsGrown uuid store (create_dag_run json uuid store tenant_id profile input).1
  unfolding create_dag_run IsGrown
  create_dag_run-IsGrown store tenant_id profile input =
      let id = uuid store.issued in
      let made =
        make_tasks json uuid (store.issued + 1) id tenant_id input 0 (profile_sequence profile) in
      let planned : Store Value = record store {
        dag_runs = DagRuns.save store.dag_runs (new_run json uuid id tenant_id profile input);
        issued = made.1;
      } in
      let (runs, kept) = runs-save_all planned made.0 in
      (
        omega (
          arith,
          kept,
          issued-make_tasks (store.issued + 1) id tenant_id input 0 (profile_sequence profile),
        ),
        λ k. inl (ap (λ m. TaskRuns.get m k) runs),
      )
