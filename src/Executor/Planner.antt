-- ===== src/Executor/Planner.antt =====
-- crates/contexide-workflow-executor/src/planner.rs: a run and its five tasks.
pub mod Attempts
pub mod Filing
pub mod Tasks
use contexide.Prelude.{ℕ, ◌+◌, String, none, List, [], ◌∷◌, pos, eqb, if◌then◌else◌}
use contexide.Workflow.State.DagRunStatus
use contexide.Workflow.State.TaskStatus
use contexide.Storage.Workflows.{DagRun, Task}
use contexide.Storage.Workflows.Mem.DagRuns
use contexide.Executor.Json.{Json}
use contexide.Executor.Store.{Store, save_all}

pub profile_sequence : String → List String
profile_sequence profile = "extractor" ∷ "normalizer" ∷ "chunker" ∷ "embedder" ∷ "indexer" ∷ []

module _ (json : Json) (uuid : ℕ → ℕ) where
  open json use {Value}

  abbrev pub new_run : ℕ → ℕ → String → Value → DagRun Value
  new_run id tenant_id profile input = record {
    id = id;
    tenant_id = tenant_id;
    workflow_key = profile;
    status = DagRunStatus.created;
    params = input;
    error = none;
    execution_policy = none;
    execution_policy_version = pos 1;
  }

  abbrev pub new_task : ℕ → ℕ → ℕ → String → Value → Task Value
  new_task id dag_run_id tenant_id kind payload = record {
    id = id;
    dag_run_id = dag_run_id;
    tenant_id = tenant_id;
    kind = kind;
    status = TaskStatus.pending;
    payload = payload;
    result = none;
    max_attempts = none;
    retry_policy = "never";
    retry_params = json.object [];
    priority = pos 0;
    execution_policy_override = none;
  }

  -- The loop over the kinds from place `idx` on, with the number of ids made so far: the tasks, and
  -- that number after it.
  unfoldable pub make_tasks : ℕ → ℕ → ℕ → Value → ℕ → List String → List (Task Value) × ℕ
  make_tasks issued dag_run_id tenant_id input idx [] = ([], issued)
  make_tasks issued dag_run_id tenant_id input idx (kind ∷ kinds) =
      let payload = if eqb idx 0 then input else json.null in
      let (tasks, issued') = make_tasks (issued + 1) dag_run_id tenant_id input (idx + 1) kinds in
      (new_task (uuid issued) dag_run_id tenant_id kind payload ∷ tasks, issued')

  unfoldable pub create_dag_run : Store Value → ℕ → String → Value → ℕ × Store Value
  create_dag_run store tenant_id profile input =
      let id = uuid store.issued in
      let planned = record store {
        dag_runs = DagRuns.save store.dag_runs (new_run id tenant_id profile input);
        issued = store.issued + 1;
      } in
      let (tasks, issued) =
        make_tasks planned.issued id tenant_id input 0 (profile_sequence profile) in
      (id, save_all (record planned { issued = issued }) tasks)
