-- ===== src/Worker/Handlers.antt =====
-- crates/contexide-workers/src/handlers.rs: the handlers of the five kinds, which answer a request
-- without work on its document. `GenericHandler` holds a kind, which is an argument here, and
-- `ChunkSetId::default()` is a new id, `fresh`.
pub mod Redelivery
use contexide.Prelude.{
  ℕ, String, Bool, true, false, Option, none, some, List, [], ◌∷◌, ◌==◌, string_eq, if◌then◌else◌,
}
use contexide.Executor.Json.{Json}
use contexide.Executor.Messaging.{
  WorkerRequest, MsgWorkerStatus, TaskResultMeta, TaskRunOutcome, permanent_failure,
}

module _ (json : Json) (fresh : ℕ) where
  open json use {Value}

  abbrev pub base_status : WorkerRequest Value → MsgWorkerStatus Value
  base_status req = record {
    tenant_id = req.tenant_id;
    dag_run_id = req.dag_run_id;
    task_id = req.task_id;
    task_run_id = req.task_run_id;
    kind = req.kind;
    success = true;
    output = none;
    error = none;
    error_kind = none;
    result_meta = none;
  }

  abbrev pub failure_status : WorkerRequest Value → String → String → MsgWorkerStatus Value
  failure_status req error_kind message = record (base_status req) {
    success = false;
    error = some message;
    error_kind = some error_kind;
    result_meta = some (record {
      outcome = permanent_failure;
      error_code = some error_kind;
      error_message = none;
    });
  }

  abbrev with_output : WorkerRequest Value → List (String × Value) → MsgWorkerStatus Value
  with_output req fields = record (base_status req) { output = some (json.object fields) }

  abbrev pub handle_extract : WorkerRequest Value → MsgWorkerStatus Value
  handle_extract req = with_output req (("block_ids", json.array []) ∷ [])

  abbrev pub handle_normalize : WorkerRequest Value → MsgWorkerStatus Value
  handle_normalize req = with_output req (("normalized", json.bool true) ∷ [])

  abbrev pub extract_chunk_set : WorkerRequest Value → Option ℕ
  extract_chunk_set req = elim (json.get req.payload "chunk_set_id") [
    | some v ↦ elim (json.as_str v) [ some s ↦ json.parse_uuid s | none ↦ none ]
    | none ↦ none
  ]

  abbrev or_default : Option ℕ → ℕ
  or_default none = fresh
  or_default (some id) = id

  abbrev pub handle_chunk : WorkerRequest Value → MsgWorkerStatus Value
  handle_chunk req = with_output req (
      ("chunk_set_ids", json.array (json.uuid (or_default (extract_chunk_set req)) ∷ []))
      ∷ ("chunk_ids", json.array [])
      ∷ [])

  abbrev pub handle_embed : WorkerRequest Value → MsgWorkerStatus Value
  handle_embed req = with_output req (("embedded", json.bool true) ∷ [])

  abbrev pub handle_index : WorkerRequest Value → MsgWorkerStatus Value
  handle_index req = with_output req (("indexed", json.bool true) ∷ [])

  -- `GenericHandler::handle`; `handler_for kind` is `handle kind`.
  unfoldable pub handle : String → WorkerRequest Value → MsgWorkerStatus Value
  handle kind req =
      if kind == "extractor"
      then handle_extract req
      else if kind == "normalizer"
      then handle_normalize req
      else if kind == "chunker"
      then handle_chunk req
      else if kind == "embedder"
      then handle_embed req
      else if kind == "indexer"
      then handle_index req
      else failure_status req "unsupported_worker_kind" "Unsupported worker kind"
