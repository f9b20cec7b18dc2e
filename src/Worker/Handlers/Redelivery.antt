-- ===== src/Worker/Handlers/Redelivery.antt =====
-- Requests come at least once: the answers of a worker to a request that comes again, taken in by
-- the executor.
use contexide.Prelude.{ℕ, String, ◌≡◌, refl, ◌∙◌, sym, inl, inr, some, Bool-cases, string_eq, arith}
use contexide.Storage.Workflows.{TaskRun}
use contexide.Storage.Workflows.Mem.TaskRuns
use contexide.Executor.Domain.{RetryPolicy}
use contexide.Executor.Json.{Json}
use contexide.Executor.Store.{Store}
use contexide.Executor.Messaging.{WorkerRequest, MsgWorkerStatus, on_message, status_of}
use contexide.Executor.Scheduler.Results.{origin}
use contexide.Executor.Scheduler.Results.Delivery.{handle_worker_status_first}
use contexide.Worker.Handlers.{handle}

module _ (json : Json) where
  open json use {Value}

  handle-task_run_id :
      (fresh : ℕ) (kind : String) (req : WorkerRequest Value)
      → (handle json fresh kind req).task_run_id ≡ req.task_run_id
  unfolding handle
  handle-task_run_id fresh kind req = ground arith

  -- What the executor makes of a message keeps its attempt.
  origin-status_of :
      (done : MsgWorkerStatus Value) (uuid : ℕ → ℕ)
      → (origin json uuid (status_of done)).task_run_id ≡ done.task_run_id
  unfolding status_of
  origin-status_of done uuid = elim (Bool-cases done.success) [
    | inl s ↦ rw s refl
    | inr s ↦ rw s refl
  ]

  -- A request may be handled again, by a worker of the same or another kind: where attempts are
  -- stored under their own ids, the executor takes in the answer that comes first, and no other.
  pub on_message-redelivered :
      (uuid : ℕ → ℕ) (policy : RetryPolicy) (store : Store Value) (req : WorkerRequest Value)
      → (fresh other_fresh : ℕ) (kind other_kind : String)
      → ((k : ℕ) (run : TaskRun) → TaskRuns.get store.task_runs k ≡ some run → run.id ≡ k)
      → on_message json uuid policy
          (on_message json uuid policy store (handle json fresh kind req))
          (handle json other_fresh other_kind req)
        ≡ on_message json uuid policy store (handle json fresh kind req)
  unfolding on_message
  on_message-redelivered uuid policy store req fresh other_fresh kind other_kind keyed =
      let id = λ (n : ℕ) (k : String).
        origin-status_of (handle json n k req) uuid ∙ handle-task_run_id n k req in
      handle_worker_status_first json uuid policy store _ _ keyed
        (id other_fresh other_kind ∙ sym (id fresh kind))
