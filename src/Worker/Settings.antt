-- ===== src/Worker/Settings.antt =====
-- crates/contexide-worker-runtime/src/config.rs, and config.rs and bootstrap.rs of
-- crates/contexide-workers/src. A duration is its number of seconds.
pub mod Tokens
pub mod Delivery
pub mod Transport
pub mod Subjects
pub mod Heard
use Prim.Native.String.{◌++◌ as ◌<>◌}
use contexide.Prelude.{
  ℕ, String, Option, none, some, Result, ok, err, ◌>>=◌, ◌==◌, string_eq, if◌then◌else◌,
}
use contexide.Executor.Messaging.{trim_end_dots}
use contexide.Config.{
  BlobStorageConfig, EmbeddingsConfig, MessagingConfig, StorageConfig, VectorConfig, WorkersTuning,
}
use contexide.Config.Load.{
  Error, load_storage, load_blob_storage, load_vector, load_embeddings, load_workers,
  load_messaging,
}
use contexide.Worker.Runner.{Runner, started}

pub record WorkerRuntimeConfig : Type 0 where
  pub worker_kind : String
  pub stream : String
  pub subject_request : String
  pub subject_done : String
  pub max_concurrency : ℕ
  pub shutdown_grace : ℕ

abbrev unwrap_or : ℕ → Option ℕ → ℕ
unwrap_or default none = default
unwrap_or default (some n) = n

abbrev pub from_messaging : MessagingConfig → String → WorkerRuntimeConfig
from_messaging msg worker_kind =
    let prefix = trim_end_dots msg.workflow_prefix in
    record {
      worker_kind = worker_kind;
      stream = msg.workflow_stream;
      subject_request = prefix <> "." <> worker_kind <> ".request";
      subject_done = prefix <> "." <> worker_kind <> ".done";
      max_concurrency = unwrap_or 4 msg.worker_default_concurrency;
      shutdown_grace = 30;
    }

pub record WorkerAppConfig : Type 0 where
  pub messaging : MessagingConfig
  pub workers : WorkersTuning
  pub storage : StorageConfig
  pub blob_storage : Option BlobStorageConfig
  pub vector : Option VectorConfig
  pub embeddings : Option EmbeddingsConfig

-- `Result::ok`
abbrev to_option : {A : Type 0} → Result Error A → Option A
to_option (ok a) = some a
to_option (err e) = none

unfoldable pub load : (String → Option String) → Result Error WorkerAppConfig
load env = load_messaging env >>= λ messaging. load_workers env >>= λ workers.
    load_storage env >>= λ storage. ok (record {
      messaging = messaging;
      workers = workers;
      storage = storage;
      blob_storage = to_option (load_blob_storage env);
      vector = to_option (load_vector env);
      embeddings = to_option (load_embeddings env);
    })

unfoldable pub concurrency_for : WorkerAppConfig → String → ℕ
concurrency_for cfg worker_kind =
    if worker_kind == "extractor"
    then cfg.workers.extract
    else if worker_kind == "normalizer"
    then cfg.workers.normalize
    else if worker_kind == "chunker"
    then cfg.workers.chunk
    else if worker_kind == "embedder"
    then cfg.workers.embed
    else if worker_kind == "indexer"
    then cfg.workers.index
    else unwrap_or 4 cfg.messaging.worker_default_concurrency

unfoldable pub runtime_config : WorkerAppConfig → String → WorkerRuntimeConfig
runtime_config cfg worker_kind = record (from_messaging cfg.messaging worker_kind) {
  max_concurrency = concurrency_for cfg worker_kind;
}

-- `run_worker` up to the start of its loop: the configuration and the runner.
unfoldable pub run_worker :
    {Bytes : Type 0}
    → (String → Option String)
    → String
    → Result Error (WorkerRuntimeConfig × Runner Bytes)
run_worker env worker_kind = load env >>= λ app_cfg.
    (let rt_cfg = runtime_config app_cfg worker_kind in ok (rt_cfg, started rt_cfg.max_concurrency))
