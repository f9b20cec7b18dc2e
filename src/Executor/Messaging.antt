-- ===== src/Executor/Messaging.antt =====
-- crates/contexide-workflow-executor/src/messaging.rs, with the messages and subjects of
-- crates/contexide-core/src/messaging/workflow.rs. The messages of the model are the values that
-- `serde_json` encodes and decodes; the transport is outside: what is published is the result of a
-- pump, and what arrives under a subject is what the client's subscription gives.
use Prim.Native.Char.{code}
use Prim.Native.String.{◌++◌ as ◌<>◌}
use contexide.Prelude.{
  ℕ, String, Bool, Option, none, some, List, [], ◌∷◌, map, ◌&&◌, eqb, if◌then◌else◌, is_empty,
}
use contexide.Executor.Domain.{ReadyTask, Origin, WorkerStatus, RetryPolicy}
use contexide.Executor.Json.{Json}
use contexide.Executor.Store.{Store}
use contexide.Executor.Scheduler.Ready.{schedule_ready_tasks}
use contexide.Executor.Scheduler.Results.{handle_worker_status}

pub record WorkerRequest (Value : Type 0) : Type 0 where
  pub tenant_id : ℕ
  pub dag_run_id : ℕ
  pub task_id : ℕ
  pub task_run_id : ℕ
  pub kind : String
  pub payload : Value

pub data TaskRunOutcome : Type 0 where
  success : TaskRunOutcome
  transient_failure : TaskRunOutcome
  permanent_failure : TaskRunOutcome

pub record TaskResultMeta : Type 0 where
  pub outcome : TaskRunOutcome
  pub error_code : Option String
  pub error_message : Option String

-- `WorkerStatus` of the messages, which messaging.rs calls `MsgWorkerStatus`.
pub record MsgWorkerStatus (Value : Type 0) : Type 0 where
  pub tenant_id : ℕ
  pub dag_run_id : ℕ
  pub task_id : ℕ
  pub task_run_id : ℕ
  pub kind : String
  pub success : Bool
  pub output : Option Value
  pub error : Option String
  pub error_kind : Option String
  pub result_meta : Option TaskResultMeta

-- The part of the trait that the listener calls: the stream of a subscription, decoded. What is
-- published is the result of `pump_requests`.
pub record MessagingClient (Value : Type 0) : Type 0 where
  pub subscribe : String → List (MsgWorkerStatus Value)

-- `prefix.trim_end_matches('.')`
unfoldable pub trim_end_dots : String → String
trim_end_dots String.[] = ""
trim_end_dots (String.◌∷◌ c s) =
    let rest = trim_end_dots s in if eqb (code c) 46 && is_empty rest then "" else String.◌∷◌ c rest

unfoldable pub worker_request_subject : String → String → String
worker_request_subject prefix kind = trim_end_dots prefix <> "." <> kind <> ".request"

unfoldable pub worker_done_subject : String → String → String
worker_done_subject prefix kind = trim_end_dots prefix <> "." <> kind <> ".done"

abbrev error_or_unknown : Option String → String
error_or_unknown none = "unknown error"
error_or_unknown (some e) = e

module _ {Value : Type 0} where
  abbrev pub request : ReadyTask Value → String × WorkerRequest Value
  request task = (
    worker_request_subject "contexide.workflow" task.kind,
    record {
      tenant_id = task.tenant_id;
      dag_run_id = task.dag_run_id;
      task_id = task.task_id;
      task_run_id = task.task_run_id;
      kind = task.kind;
      payload = task.payload;
    },
  )

  -- What is published, under which subjects, and the store after it.
  unfoldable pub pump_requests :
      (ℕ → ℕ) → Option ℕ → Store Value → List (String × WorkerRequest Value) × Store Value
  pump_requests uuid max_batch store =
      let (ready, next) = schedule_ready_tasks uuid max_batch store in (map request ready, next)

  -- The `status` that the listener makes of a message.
  unfoldable pub status_of : MsgWorkerStatus Value → WorkerStatus Value
  status_of done =
      let from : Origin = record {
        tenant_id = done.tenant_id;
        dag_run_id = done.dag_run_id;
        task_id = done.task_id;
        task_run_id = done.task_run_id;
      } in
      if done.success
      then WorkerStatus.success from done.output
      else WorkerStatus.failed from (error_or_unknown done.error) done.error_kind

module _ (json : Json) (uuid : ℕ → ℕ) (policy : RetryPolicy) where
  open json use {Value}

  -- One turn of the loop in `listen_worker_statuses`.
  unfoldable pub on_message : Store Value → MsgWorkerStatus Value → Store Value
  on_message store done = handle_worker_status json uuid policy store (status_of done)

  -- The loop over the stream.
  abbrev pub forward : Store Value → List (MsgWorkerStatus Value) → Store Value
  forward store [] = store
  forward store (done ∷ messages) = forward (on_message store done) messages

  unfoldable pub listen_worker_statuses : MessagingClient Value → Store Value → Store Value
  listen_worker_statuses client store =
      forward store (client.subscribe (worker_done_subject "contexide.workflow" "*"))
