-- ===== src/Executor/Scheduler/Results/Filing.antt =====
-- Reports keep the tasks under their own ids.
use contexide.Prelude.{
  ℕ, ◌≡◌, inl, inr, String, Bool-cases, Option, Option-cases, none, some, arith,
}
use contexide.Workflow.State.TaskRunStatus
use contexide.Storage.Workflows.{TaskRun}
use contexide.Storage.Workflows.Mem.Tasks
use contexide.Storage.Workflows.Mem.TaskRuns
use contexide.Executor.Domain.{Origin, WorkerStatus, success, failed, RetryPolicy}
use contexide.Executor.Json.{Json}
use contexide.Executor.Store.{Store}
use contexide.Executor.Store.Filed.{IsFiled, save-IsFiled, save_all-IsFiled}
use contexide.Executor.Scheduler.Results.{
  refresh_dag_status, fan_out_list, chunk_sets, fan_out, complete_task, handle_success, retry_task,
  handle_failure, handle_attempt, origin, handle_worker_status,
}

module _ (json : Json) (uuid : ℕ → ℕ) where
  open json use {Value}

  pub tasks_of-refresh :
      (store : Store Value) (dag_run_id : ℕ)
      → (refresh_dag_status json uuid store dag_run_id).tasks ≡ store.tasks
  unfolding refresh_dag_status
  tasks_of-refresh store dag_run_id = ground arith

  refresh-IsFiled :
      (store : Store Value) (dag_run_id : ℕ)
      → IsFiled store.tasks
      → IsFiled (refresh_dag_status json uuid store dag_run_id).tasks
  refresh-IsFiled store dag_run_id filed = rw (tasks_of-refresh store dag_run_id) filed

  fan_out-IsFiled :
      (store : Store Value) (dag_run_id tenant_id : ℕ) (output : Option Value)
      → IsFiled store.tasks
      → IsFiled (fan_out json uuid store dag_run_id tenant_id output).tasks
  unfolding fan_out fan_out_list
  fan_out-IsFiled store dag_run_id tenant_id none filed = filed
  fan_out-IsFiled store dag_run_id tenant_id (some output) filed =
      elim (Option-cases (chunk_sets json uuid output)) [
        | inl absent ↦ rw (absent, fan_out) filed
        | inr (list, found) ↦ rw (found, fan_out) (save_all-IsFiled _ _ filed)
      ]

  success-IsFiled :
      (store : Store Value) (from : Origin) (output : Option Value) (attempt : TaskRun)
      → IsFiled store.tasks
      → IsFiled (handle_success json uuid store from output attempt).tasks
  unfolding handle_success complete_task
  success-IsFiled store from output attempt filed =
      elim (Option-cases (Tasks.get store.tasks from.task_id)) [
        | inl absent ↦ rw (absent, handle_success) filed
        | inr (task, found) ↦
            rw (found, handle_success)
              (refresh-IsFiled _ from.dag_run_id (
                fan_out-IsFiled _ from.dag_run_id task.tenant_id output
                  (save-IsFiled store.tasks _ filed)))
      ]

  module _ (policy : RetryPolicy) where
    failure-IsFiled :
        (store : Store Value) (from : Origin) (error : String) (error_kind : Option String)
        → (attempt : TaskRun) → IsFiled store.tasks
        → IsFiled (handle_failure json uuid policy store from error error_kind attempt).tasks
    unfolding handle_failure retry_task
    failure-IsFiled store from error error_kind attempt filed =
        refresh-IsFiled _ from.dag_run_id
          (elim (Option-cases (Tasks.get store.tasks from.task_id)) [
            | inl absent ↦ rw (absent, retry_task) filed
            | inr (task, found) ↦ rw (found, retry_task) (save-IsFiled store.tasks _ filed)
          ])

    attempt-IsFiled :
        (store : Store Value) (status : WorkerStatus Value) (attempt : TaskRun)
        → IsFiled store.tasks
        → IsFiled (handle_attempt json uuid policy store status attempt).tasks
    unfolding handle_attempt
    attempt-IsFiled store (success from output) attempt filed =
        success-IsFiled store from output attempt filed
    attempt-IsFiled store (failed from error error_kind) attempt filed =
        failure-IsFiled store from error error_kind attempt filed

    pub handle_worker_status-IsFiled :
        (store : Store Value) (status : WorkerStatus Value)
        → IsFiled store.tasks
        → IsFiled (handle_worker_status json uuid policy store status).tasks
    unfolding handle_worker_status
    handle_worker_status-IsFiled store status filed =
        elim (Option-cases (TaskRuns.get store.task_runs (origin json uuid status).task_run_id)) [
          | inl absent ↦ rw (absent, handle_worker_status) filed
          | inr (attempt, found) ↦ elim (Bool-cases (TaskRunStatus.is_terminal attempt.status)) [
            | inl over ↦ rw (found, over, handle_worker_status) filed
            | inr going ↦
                rw (found, going, handle_worker_status) (attempt-IsFiled store status attempt filed)
          ]
        ]
