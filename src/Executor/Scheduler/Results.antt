-- ===== src/Executor/Scheduler/Results.antt =====
-- `handle_worker_status` of crates/contexide-workflow-executor/src/scheduler.rs, and its helpers.
pub mod Attempts
pub mod Filing
pub mod Delivery
pub mod Effects
pub mod FanOut
use contexide.Prelude.{
  ℕ, ◌+◌, ◌%◌, ◌^◌, String, Bool, true, false, not, Option, none, some, List, [], ◌∷◌, map, pos,
  nat_eq, if◌then◌else◌, length,
}
use contexide.Workflow.State.DagRunStatus.{DagRunStatus}
use contexide.Workflow.State.TaskStatus.{TaskStatus}
use contexide.Workflow.State.TaskRunStatus
use contexide.Storage.Workflows.{Task, TaskRun}
use contexide.Storage.Workflows.Mem.DagRuns
use contexide.Storage.Workflows.Mem.Tasks
use contexide.Storage.Workflows.Mem.TaskRuns
use contexide.Executor.Domain.{
  Origin, WorkerStatus, success, failed, RetryPolicy, should_retry, dag_status_from_tasks,
}
use contexide.Executor.Json.{Json}
use contexide.Executor.Store.{Store, save_all}

-- `==` on `DagRunStatus`, which is derived.
pub same_status : DagRunStatus → DagRunStatus → Bool
same_status DagRunStatus.created DagRunStatus.created = true
same_status DagRunStatus.running DagRunStatus.running = true
same_status DagRunStatus.success DagRunStatus.success = true
same_status DagRunStatus.failed DagRunStatus.failed = true
same_status DagRunStatus.cancelled DagRunStatus.cancelled = true
same_status DagRunStatus.partial_failed DagRunStatus.partial_failed = true
same_status _ _ = false

module _ (json : Json) (uuid : ℕ → ℕ) where
  open json use {Value}

  -- The end of both branches: the status of the run is derived from its tasks again.
  abbrev pub derived_status : Store Value → ℕ → DagRunStatus
  derived_status store dag_run_id =
      dag_status_from_tasks (map (λ t. t.status) (Tasks.list_by_dag_run store.tasks dag_run_id))

  unfoldable pub refresh_dag_status : Store Value → ℕ → Store Value
  refresh_dag_status store dag_run_id = elim (DagRuns.get store.dag_runs dag_run_id) [
    | some dag_run ↦
        let final_status = derived_status store dag_run_id in
        if not (same_status final_status dag_run.status)
        then record store {
          dag_runs = DagRuns.save store.dag_runs (record dag_run { status = final_status });
        }
        else store
    | none ↦ store
  ]

  abbrev pub embed_task : ℕ → ℕ → ℕ → ℕ → Task Value
  embed_task id dag_run_id tenant_id chunk_set_id = record {
    id = id;
    dag_run_id = dag_run_id;
    tenant_id = tenant_id;
    kind = "embedder";
    status = TaskStatus.pending;
    payload = json.object (("chunk_set_id", json.uuid chunk_set_id) ∷ []);
    result = none;
    max_attempts = none;
    retry_policy = "never";
    retry_params = json.object [];
    priority = pos 0;
    execution_policy_override = none;
  }

  abbrev pub chunk_set_of : Value → Option ℕ
  chunk_set_of cs = elim (json.as_str cs) [ some s ↦ json.parse_uuid s | none ↦ none ]

  -- The loop of `extract_embed_tasks`, with the number of ids made so far: the tasks, and that
  -- number after it.
  unfoldable pub embed_tasks : ℕ → ℕ → ℕ → List Value → List (Task Value) × ℕ
  embed_tasks issued dag_run_id tenant_id [] = ([], issued)
  embed_tasks issued dag_run_id tenant_id (cs ∷ list) = elim (chunk_set_of cs) [
    | some chunk_set_id ↦
        let (tasks, issued') = embed_tasks (issued + 1) dag_run_id tenant_id list in
        (embed_task (uuid issued) dag_run_id tenant_id chunk_set_id ∷ tasks, issued')
    | none ↦ embed_tasks issued dag_run_id tenant_id list
  ]

  abbrev pub chunk_sets : Value → Option (List Value)
  chunk_sets output = elim (json.get output "chunk_set_ids") [
    | some v ↦ json.as_array v
    | none ↦ none
  ]

  unfoldable pub fan_out_list : Store Value → ℕ → ℕ → List Value → Store Value
  fan_out_list store dag_run_id tenant_id list =
      let (tasks, issued) = embed_tasks store.issued dag_run_id tenant_id list in
      save_all (record store { issued = issued }) tasks

  -- The fan-out of a success: one embed task for each chunk set that the output names.
  unfoldable pub fan_out : Store Value → ℕ → ℕ → Option Value → Store Value
  fan_out store dag_run_id tenant_id none = store
  fan_out store dag_run_id tenant_id (some output) = elim (chunk_sets output) [
    | some list ↦ fan_out_list store dag_run_id tenant_id list
    | none ↦ store
  ]

  -- From `task.status = TaskStatus::Success` on.
  unfoldable pub complete_task : Store Value → Origin → Option Value → Task Value → Store Value
  complete_task store from output task =
      let saved = record store {
        tasks =
            Tasks.save store.tasks (record task { status = TaskStatus.success; result = output });
      } in
      refresh_dag_status (fan_out saved from.dag_run_id task.tenant_id output) from.dag_run_id

  unfoldable pub handle_success : Store Value → Origin → Option Value → TaskRun → Store Value
  handle_success store from output task_run =
      let closed = record store {
        task_runs =
            TaskRuns.save store.task_runs
              (record task_run { status = TaskRunStatus.success; error = none });
      } in
      elim (Tasks.get closed.tasks from.task_id) [
        | some task ↦ complete_task closed from output task
        | none ↦ closed
      ]

  abbrev pub error_value : String → Option String → Value
  error_value error error_kind = json.object (
      ("error", json.string error)
      ∷ ("error_kind", elim error_kind [ some k ↦ json.string k | none ↦ json.null ])
      ∷ [])

  -- The task after a failed attempt: pending again, or failed with the error as its result.
  unfoldable pub retried : RetryPolicy → ℕ → String → Option String → Task Value → Task Value
  retried policy attempt_count error error_kind task =
      if should_retry policy attempt_count
      then record task { status = TaskStatus.pending }
      else record task { status = TaskStatus.failed; result = some (error_value error error_kind) }

  unfoldable pub retry_task :
      RetryPolicy → Store Value → Origin → String → Option String → Store Value
  retry_task policy store from error error_kind = elim (Tasks.get store.tasks from.task_id) [
    | some task ↦
        let attempts = TaskRuns.list_by_task store.task_runs from.task_id in
        record store {
          tasks =
              Tasks.save store.tasks
                (retried policy (length attempts % 2 ^ 32) error error_kind task);
        }
    | none ↦ store
  ]

  unfoldable pub handle_failure :
      RetryPolicy → Store Value → Origin → String → Option String → TaskRun → Store Value
  handle_failure policy store from error error_kind task_run =
      let closed = record store {
        task_runs =
            TaskRuns.save store.task_runs
              (record task_run { status = TaskRunStatus.failed; error = some error });
      } in
      refresh_dag_status (retry_task policy closed from error error_kind) from.dag_run_id

  unfoldable pub handle_attempt :
      RetryPolicy → Store Value → WorkerStatus Value → TaskRun → Store Value
  handle_attempt policy store (success from output) task_run =
      handle_success store from output task_run
  handle_attempt policy store (failed from error error_kind) task_run =
      handle_failure policy store from error error_kind task_run

  abbrev pub origin : WorkerStatus Value → Origin
  origin (success from output) = from
  origin (failed from error error_kind) = from

  -- Both branches begin in the same way: an attempt that is not there, or over, changes nothing.
  unfoldable pub handle_worker_status : RetryPolicy → Store Value → WorkerStatus Value → Store Value
  handle_worker_status policy store status =
      elim (TaskRuns.get store.task_runs (origin status).task_run_id) [
        | some task_run ↦
            if TaskRunStatus.is_terminal task_run.status
            then store
            else handle_attempt policy store status task_run
        | none ↦ store
      ]
