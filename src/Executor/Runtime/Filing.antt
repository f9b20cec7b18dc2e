-- ===== src/Executor/Runtime/Filing.antt =====
-- Tasks over all orders of events.
use contexide.Prelude.{ℕ, ◌≡◌, Option, List, [], ◌∷◌, filter}
use contexide.Executor.Domain.{RetryPolicy}
use contexide.Executor.Json.{Json}
use contexide.Executor.Store.{Store}
use contexide.Executor.Store.Filed.{IsFiled, get-IsFiled}
use contexide.Executor.Messaging.{pump_requests, on_message, status_of}
use contexide.Executor.Planner.Filing.{create_dag_run-IsFiled}
use contexide.Executor.Runtime.{Event, planned, polled, reported, step, run}
use contexide.Storage.Workflows.Mem.Tasks
use contexide.Executor.Scheduler.Ready.{schedule_ready_tasks}
use contexide.Executor.Scheduler.Ready.Batch.{dispatched, schedule_ready_tasks-filter}
use contexide.Executor.Scheduler.Ready.Ongoing.{is_due}
use contexide.Executor.Scheduler.Ready.Filing.{schedule_ready_tasks-IsFiled}
use contexide.Executor.Scheduler.Results.Filing.{handle_worker_status-IsFiled}

module _ (json : Json) (uuid : ℕ → ℕ) (policy : RetryPolicy) where
  open json use {Value}

  pub step-IsFiled :
      (store : Store Value) (e : Event Value)
      → IsFiled store.tasks
      → IsFiled (step json uuid policy store e).tasks
  unfolding step pump_requests on_message
  step-IsFiled store (planned tenant_id profile input) filed =
      create_dag_run-IsFiled json uuid store tenant_id profile input filed
  step-IsFiled store (polled max_batch) filed =
      schedule_ready_tasks-IsFiled uuid max_batch store filed
  step-IsFiled store (reported done) filed =
      handle_worker_status-IsFiled json uuid policy store (status_of done) filed

  -- In whatever order runs are planned, tasks are polled and workers report: where at the start each
  -- task is stored under its own id, and under no other, that stays so.
  pub run-IsFiled :
      (store : Store Value) (events : List (Event Value))
      → IsFiled store.tasks
      → IsFiled (run json uuid policy store events).tasks
  unfolding run
  run-IsFiled store [] filed = filed
  run-IsFiled store (e ∷ events) filed =
      run-IsFiled (step json uuid policy store e) events (step-IsFiled store e filed)

  -- Where at the start each task is stored under its own id, and under no other: whatever events came
  -- before, a call of the scheduler returns, for the pending tasks of its batch that are ready in the
  -- store at its start and for no others, one request each, in their order and under the next new ids.
  pub schedule_ready_tasks-run :
      (max_batch : Option ℕ) (store : Store Value) (events : List (Event Value))
      → IsFiled store.tasks
      → (schedule_ready_tasks uuid max_batch (run json uuid policy store events)).0
        ≡ dispatched uuid (run json uuid policy store events).issued (
            filter
              (is_due (run json uuid policy store events).tasks)
              (Tasks.list_pending (run json uuid policy store events).tasks max_batch))
  schedule_ready_tasks-run max_batch store events filed =
      schedule_ready_tasks-filter uuid max_batch (run json uuid policy store events)
        (get-IsFiled _ (run-IsFiled store events filed))
