-- ===== src/Executor/Examples.antt =====
-- The theorems of the executor at the small store.
use contexide.Prelude.{
  ℕ, ◌≤◌, inl, inr, ap, ◌%◌, ◌^◌, ◌<◌, String, ◌≡◌, ◌≢◌, ◌⊎◌, ◌↔◌, refl, true, none, some, List, [],
  ◌∷◌, nat_eq, string_eq, arith, Memᴰ, filter, length, eqb, if◌then◌else◌,
}
use contexide.HashMap.{values}
use contexide.Workflow.State.TaskStatus.{TaskStatus}
use contexide.Workflow.State.TaskRunStatus
use contexide.Storage.Workflows.{Task}
use contexide.Storage.Workflows.Mem.DagRuns
use contexide.Storage.Workflows.Mem.Tasks
use contexide.Storage.Workflows.Mem.TaskRuns
use contexide.Executor.Domain.{WorkerStatus, success, failed, is_done}
use contexide.Executor.Messaging.{MsgWorkerStatus}
use contexide.HashMap
use mathlib.Core.List.Memᴰ
use contexide.Executor.Planner.{create_dag_run}
use contexide.Executor.Planner.Tasks.{stage, stages, create_dag_run-tasks}
use contexide.Executor.Runtime.{Event, planned, polled, reported, run}
use contexide.Executor.Runtime.Bound.{empty_store, run-attempts_le}
use contexide.Executor.Runtime.Filing.{schedule_ready_tasks-run}
use contexide.Executor.Runtime.Final.{run-final}
use contexide.Executor.Scheduler.Ready.{
  schedule_ready_tasks, is_ready, ordering_for_kind, usize_max,
}
use contexide.Executor.Scheduler.Ready.Ongoing.{is_due}
use contexide.Executor.Scheduler.Ready.Upstream.{is_ready_iff}
use contexide.Executor.Scheduler.Ready.Batch.{dispatched, schedule_ready_tasks-filter}
use contexide.Executor.Scheduler.Results.{handle_worker_status, derived_status}
use contexide.Executor.Scheduler.Results.Delivery.{handle_worker_status_first}
use contexide.Executor.Scheduler.Results.Effects.{after_failure, handle_worker_status-failed}
use contexide.Executor.Scheduler.Results.FanOut.{handle_worker_status-success}
use contexide.Executor.Samples.{
  texts, same, policy, task, dag_run, attempt, store, from, store-IsKeyed, store-IsFiled,
  store-IsOwned, running-attempt-found, failed_attempt-found, over, going, task-found, run-found,
}

schedule_ready_tasks-filter_example :
    (schedule_ready_tasks same (some 5) store).0
    ≡ dispatched same 100 (filter (is_due store.tasks) (Tasks.list_pending store.tasks (some 5)))
schedule_ready_tasks-filter_example = schedule_ready_tasks-filter same (some 5) store store-IsKeyed

is_ready_iff_example : (is_ready (task 11 "normalizer") (values store.tasks) ≡ true) ↔ (
    ((TaskStatus.pending ≡ TaskStatus.pending) ⊎ (TaskStatus.pending ≡ TaskStatus.ready))
    × ((ordering_for_kind "normalizer" ≡ usize_max)
        ⊎ ((sib : Task (List String))
            → Memᴰ sib (values store.tasks)
            → ordering_for_kind sib.kind < ordering_for_kind "normalizer"
            → is_done sib.status ≡ true)))
is_ready_iff_example = is_ready_iff (task 11 "normalizer") (values store.tasks)

abbrev report : MsgWorkerStatus (List String)
report = record {
  tenant_id = 2;
  dag_run_id = 1;
  task_id = 10;
  task_run_id = 51;
  kind = "extractor";
  success = true;
  output = some ("seven" ∷ "x" ∷ []);
  error = none;
  error_kind = none;
  result_meta = none;
}

abbrev events : List (Event (List String))
events =
    polled none ∷ reported report ∷ planned 2 "default" [] ∷ polled (some 1) ∷ reported report ∷ []

run-attempts_le_example :
    length (TaskRuns.list_by_task (run texts same policy empty_store events).task_runs 1)
    ≤ (if eqb policy.max_attempts 0 then 1 else policy.max_attempts)
run-attempts_le_example = run-attempts_le texts same policy (λ m n e. e) (omega arith) events 1

schedule_ready_tasks-run_example :
    (schedule_ready_tasks same none (run texts same policy store events)).0
    ≡ dispatched same (run texts same policy store events).issued (
        filter
          (is_due (run texts same policy store events).tasks)
          (Tasks.list_pending (run texts same policy store events).tasks none))
schedule_ready_tasks-run_example =
    schedule_ready_tasks-run texts same policy none store events store-IsFiled

run-final_example :
    TaskRuns.get (run texts same policy store events).task_runs 50
    ≡ some (attempt 50 TaskRunStatus.failed)
run-final_example =
    run-final texts same policy (λ m n e. e) store events store-IsOwned 50
      (attempt 50 TaskRunStatus.failed) failed_attempt-found over

abbrev done : WorkerStatus (List String)
done = success from (some ("seven" ∷ "x" ∷ []))

handle_worker_status_first_example :
    handle_worker_status texts same policy
      (handle_worker_status texts same policy store done)
      (failed from "late" none)
    ≡ handle_worker_status texts same policy store done
handle_worker_status_first_example =
    handle_worker_status_first texts same policy store done (failed from "late" none)
      (store-IsOwned).0 refl

handle_worker_status-failed_example :
    (Tasks.get (handle_worker_status texts same policy store (failed from "oops" none)).tasks 10
      ≡ some (
          after_failure texts same policy
            (length (TaskRuns.list_by_task store.task_runs 10) % 2 ^ 32)
            "oops"
            none
            (task 10 "extractor")))
    × (DagRuns.get
          (handle_worker_status texts same policy store (failed from "oops" none)).dag_runs
          1
        ≡ some (record dag_run {
          status =
              derived_status texts same
                (handle_worker_status texts same policy store (failed from "oops" none))
                1;
        }))
handle_worker_status-failed_example =
    handle_worker_status-failed texts same policy store from "oops" none
      (attempt 51 TaskRunStatus.running) (task 10 "extractor") dag_run running-attempt-found refl
      going task-found refl run-found refl

handle_worker_status-success_example :
    (Tasks.get (handle_worker_status texts same policy store done).tasks 10
      ≡ some (record (task 10 "extractor") {
        status = TaskStatus.success;
        result = some ("seven" ∷ "x" ∷ []);
      }))
    × (DagRuns.get (handle_worker_status texts same policy store done).dag_runs 1
        ≡ some (record dag_run {
          status = derived_status texts same (handle_worker_status texts same policy store done) 1;
        }))
handle_worker_status-success_example =
    handle_worker_status-success texts same policy store from (some ("seven" ∷ "x" ∷ []))
      (attempt 51 TaskRunStatus.running) (task 10 "extractor") dag_run running-attempt-found going
      task-found refl run-found refl (λ n made e. omega arith)

abbrev statuses : List TaskStatus
statuses = TaskStatus.success ∷ TaskStatus.skipped ∷ []

store-unused : (n : ℕ) → 100 ≤ n → Tasks.get store.tasks n ≡ none
unfolding HashMap.get
store-unused n later = ground arith

store-no_tasks : (t : Task (List String)) → Memᴰ t (values store.tasks) → t.dag_run_id ≢ 100
store-no_tasks t m e = elim (Memᴰ.cases_cons m) [
  | inl here ↦ absurd (ground (arith, ap (λ (t : Task (List String)). t.dag_run_id) here))
  | inr later ↦ elim (Memᴰ.cases_cons later) [
    | inl here ↦ absurd (ground (arith, ap (λ (t : Task (List String)). t.dag_run_id) here))
    | inr none_left ↦ absurd (Memᴰ.not-nil none_left)
  ]
]

create_dag_run-tasks_example :
    (Tasks.list_by_dag_run
        (create_dag_run texts same store 2 "default" ("in" ∷ [])).1.tasks
        (create_dag_run texts same store 2 "default" ("in" ∷ [])).0
      ≡ stages texts same 100 2 ("in" ∷ []))
    × (filter
          (λ t. is_ready t (stages texts same 100 2 ("in" ∷ [])))
          (stages texts same 100 2 ("in" ∷ []))
        ≡ stage texts same 100 2 1 "extractor" ("in" ∷ []) ∷ [])
create_dag_run-tasks_example =
    create_dag_run-tasks texts same (λ m n e. e) store 2 "default" ("in" ∷ []) store-unused
      store-no_tasks
