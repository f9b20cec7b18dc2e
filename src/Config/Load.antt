-- ===== src/Config/Load.antt =====
-- The loaders of crates/contexide-config/src/lib.rs. An error is the place that raised it, with the
-- contexts that were put around it.
pub mod Valid
use Prim.Native.Char.{code}
use contexide.Prelude.{
  is_empty, ℕ, ◌+◌, String, Bool, true, false, not, ◌&&◌, ◌||◌, Option, none, some, Result, ok, err,
  ◌>>=◌, List, [], ◌∷◌, eqb, leb, if◌then◌else◌,
}
use contexide.Config.{
  RunEnv, prod, AppConfig, StorageConfig, BlobStorageConfig, VectorConfig, EmbeddingsConfig,
  ApiConfig, WorkersTuning, MessagingConfig, WorkflowConfig, ExecutorConfig, defaults_env,
  defaults_storage, defaults_blob, defaults_vector, defaults_embeddings, defaults_api,
  defaults_workers, defaults_messaging, defaults_workflow, defaults_executor,
}
use contexide.Config.Env.{
  starts_with, parse, u64_max, env_scoped_s, env_scoped_u32, env_scoped_usize, env_scoped_bool,
}

pub data Error : Type 0 where
  empty_database_url : Error
  blob_endpoint : Error
  empty_bucket : Error
  vector_endpoint : Error
  vector_dim : ℕ → Error
  empty_model : Error
  poll_interval : Error
  loading : String → Error → Error

-- `if let Some(v) = … { cfg.field = v; }`
abbrev pub overridden : {A : Type 0} → A → Option A → A
overridden old none = old
overridden old (some v) = v

abbrev pub overridden_some : {A : Type 0} → Option A → Option A → Option A
overridden_some old none = old
overridden_some old (some v) = some v

-- `….context("loading …")`
abbrev pub context : {A : Type 0} → String → Result Error A → Result Error A
context place (ok a) = ok a
context place (err e) = err (loading place e)

abbrev pub is_http : String → Bool
is_http endpoint = starts_with endpoint "http://" || starts_with endpoint "https://"

abbrev to_ascii_lowercase : ℕ → ℕ
to_ascii_lowercase c = if leb 65 c && leb c 90 then c + 32 else c

abbrev eq_ignore_ascii_case : String → String → Bool
eq_ignore_ascii_case String.[] String.[] = true
eq_ignore_ascii_case (String.◌∷◌ c s) (String.◌∷◌ d t) =
    eqb (to_ascii_lowercase (code c)) (to_ascii_lowercase (code d)) && eq_ignore_ascii_case s t
eq_ignore_ascii_case _ _ = false

module _ (env : String → Option String) where
  abbrev pub storage_cfg : StorageConfig
  storage_cfg = record {
    database_url =
        overridden defaults_storage.database_url
          (env_scoped_s env "STORAGE" "DATABASE_URL" ("DATABASE_URL" ∷ "CONTEXIDE_DB_URL" ∷ []));
    db_max_connections =
        overridden defaults_storage.db_max_connections
          (env_scoped_u32 env "STORAGE" "DB_MAX_CONNECTIONS" ("CONTEXIDE_DB_MAX_CONNECTIONS" ∷ []));
    migrations_dir_override =
        overridden_some defaults_storage.migrations_dir_override
          (env_scoped_s env "STORAGE" "MIGRATIONS_DIR" ("CONTEXIDE_MIGRATIONS_DIR" ∷ []));
  }

  unfoldable pub load_storage : Result Error StorageConfig
  load_storage =
      if is_empty storage_cfg.database_url then err empty_database_url else ok storage_cfg

  abbrev pub blob_storage_cfg : BlobStorageConfig
  blob_storage_cfg = record {
    endpoint =
        overridden defaults_blob.endpoint
          (env_scoped_s env "BLOB_STORAGE" "S3_ENDPOINT" ("MINIO_ENDPOINT" ∷ []));
    access_key =
        overridden defaults_blob.access_key
          (env_scoped_s env "BLOB_STORAGE" "S3_ACCESS_KEY" ("MINIO_ACCESS_KEY" ∷ []));
    secret_key =
        overridden defaults_blob.secret_key
          (env_scoped_s env "BLOB_STORAGE" "S3_SECRET_KEY" ("MINIO_SECRET_KEY" ∷ []));
    bucket =
        overridden defaults_blob.bucket
          (env_scoped_s env "BLOB_STORAGE" "S3_BUCKET" ("MINIO_BUCKET" ∷ []));
    path_style =
        overridden defaults_blob.path_style
          (env_scoped_bool env "BLOB_STORAGE" "S3_PATH_STYLE" ("MINIO_PATH_STYLE" ∷ []));
    region =
        overridden_some defaults_blob.region
          (env_scoped_s env "BLOB_STORAGE" "S3_REGION" ("MINIO_REGION" ∷ []));
  }

  unfoldable pub load_blob_storage : Result Error BlobStorageConfig
  load_blob_storage =
      if not (is_http blob_storage_cfg.endpoint)
      then err blob_endpoint
      else if is_empty blob_storage_cfg.bucket
      then err empty_bucket
      else ok blob_storage_cfg

  abbrev pub vector_cfg : VectorConfig
  vector_cfg = record {
    endpoint =
        overridden defaults_vector.endpoint
          (env_scoped_s env "VECTOR" "VECTOR_ENDPOINT" ("VECTOR_ENDPOINT" ∷ []));
    collection_prefix =
        overridden defaults_vector.collection_prefix
          (env_scoped_s env "VECTOR" "VECTOR_COLLECTION_PREFIX" ("VECTOR_COLLECTION_PREFIX" ∷ []));
    metric =
        overridden defaults_vector.metric
          (env_scoped_s env "VECTOR" "VECTOR_METRIC" ("VECTOR_METRIC" ∷ []));
    dim =
        overridden defaults_vector.dim
          (env_scoped_usize env "VECTOR" "VECTOR_DIM" ("VECTOR_DIM" ∷ []));
  }

  unfoldable pub load_vector : Result Error VectorConfig
  load_vector =
      if not (is_http vector_cfg.endpoint)
      then err vector_endpoint
      else if not (eqb vector_cfg.dim 1024)
      then err (vector_dim vector_cfg.dim)
      else ok vector_cfg

  abbrev pub embeddings_cfg : EmbeddingsConfig
  embeddings_cfg = record {
    provider =
        overridden defaults_embeddings.provider
          (env_scoped_s env "EMBEDDINGS" "EMBEDDINGS_PROVIDER" ("EMBEDDINGS_PROVIDER" ∷ []));
    model =
        overridden defaults_embeddings.model
          (env_scoped_s env "EMBEDDINGS" "EMBEDDINGS_MODEL" ("EMBEDDINGS_MODEL" ∷ []));
    batch =
        overridden defaults_embeddings.batch
          (env_scoped_usize env "EMBEDDINGS" "EMBEDDINGS_BATCH" ("EMBEDDINGS_BATCH" ∷ []));
  }

  unfoldable pub load_embeddings : Result Error EmbeddingsConfig
  load_embeddings = if is_empty embeddings_cfg.model then err empty_model else ok embeddings_cfg

  unfoldable pub load_api : Result Error ApiConfig
  load_api = ok (record {
    bind =
        overridden defaults_api.bind
          (env_scoped_s env "API" "HTTP_BIND" ("CONTEXIDE_HTTP_BIND" ∷ []));
  })

  unfoldable pub load_workers : Result Error WorkersTuning
  load_workers = ok (record {
    ingest =
        overridden defaults_workers.ingest
          (env_scoped_usize env "WORKERS" "WORKERS_INGEST" ("WORKERS_INGEST" ∷ []));
    extract =
        overridden defaults_workers.extract
          (env_scoped_usize env "WORKERS" "WORKERS_EXTRACT" ("WORKERS_EXTRACT" ∷ []));
    normalize =
        overridden defaults_workers.normalize
          (env_scoped_usize env "WORKERS" "WORKERS_NORMALIZE" ("WORKERS_NORMALIZE" ∷ []));
    chunk =
        overridden defaults_workers.chunk
          (env_scoped_usize env "WORKERS" "WORKERS_CHUNK" ("WORKERS_CHUNK" ∷ []));
    embed =
        overridden defaults_workers.embed
          (env_scoped_usize env "WORKERS" "WORKERS_EMBED" ("WORKERS_EMBED" ∷ []));
    index =
        overridden defaults_workers.index
          (env_scoped_usize env "WORKERS" "WORKERS_INDEX" ("WORKERS_INDEX" ∷ []));
  })

  -- With the interval that was read before.
  abbrev executor_with : ℕ → ExecutorConfig
  executor_with interval = record {
    poll_interval = interval;
    max_concurrent_per_domain =
        overridden defaults_executor.max_concurrent_per_domain
          (env_scoped_usize env "EXECUTOR" "MAX_CONCURRENT_PER_DOMAIN" []);
    max_retries =
        overridden defaults_executor.max_retries (env_scoped_u32 env "EXECUTOR" "MAX_RETRIES" []);
  }

  unfoldable pub load_executor : Result Error ExecutorConfig
  load_executor = elim (env_scoped_s env "EXECUTOR" "POLL_INTERVAL_MS" []) [
    | some ms ↦ elim (parse u64_max ms) [
      | some v ↦ ok (executor_with v)
      | none ↦ err (loading "parse POLL_INTERVAL_MS" poll_interval)
    ]
    | none ↦ ok (executor_with defaults_executor.poll_interval)
  ]

  unfoldable pub load_messaging : Result Error MessagingConfig
  load_messaging = ok (record {
    nats_url =
        overridden defaults_messaging.nats_url
          (env_scoped_s env "MESSAGING" "NATS_URL" ("NATS_URL" ∷ []));
    workflow_prefix =
        overridden defaults_messaging.workflow_prefix
          (env_scoped_s env "MESSAGING" "WORKFLOW_PREFIX" ("WORKFLOW_PREFIX" ∷ []));
    workflow_stream =
        overridden defaults_messaging.workflow_stream
          (env_scoped_s env "MESSAGING" "WORKFLOW_STREAM" ("WORKFLOW_STREAM" ∷ []));
    worker_default_concurrency =
        overridden_some defaults_messaging.worker_default_concurrency
          (env_scoped_usize env "MESSAGING" "WORKER_DEFAULT_CONCURRENCY" []);
  })

  unfoldable pub load_workflow : Result Error WorkflowConfig
  load_workflow = ok (record {
    max_running_tasks_total =
        overridden defaults_workflow.max_running_tasks_total (
          env_scoped_u32 env "WORKFLOW" "MAX_RUNNING_TASKS_TOTAL" ("MAX_RUNNING_TASKS_TOTAL" ∷ []));
    default_tenant_max_running_dag_runs =
        overridden defaults_workflow.default_tenant_max_running_dag_runs (
          env_scoped_u32 env "WORKFLOW" "DEFAULT_TENANT_MAX_RUNNING_DAG_RUNS"
            ("DEFAULT_TENANT_MAX_RUNNING_DAG_RUNS" ∷ []));
    default_tenant_max_running_tasks =
        overridden defaults_workflow.default_tenant_max_running_tasks (
          env_scoped_u32 env "WORKFLOW" "DEFAULT_TENANT_MAX_RUNNING_TASKS"
            ("DEFAULT_TENANT_MAX_RUNNING_TASKS" ∷ []));
    default_tenant_max_running_tasks_per_domain =
        overridden defaults_workflow.default_tenant_max_running_tasks_per_domain (
          env_scoped_u32 env "WORKFLOW" "DEFAULT_TENANT_MAX_RUNNING_TASKS_PER_DOMAIN"
            ("DEFAULT_TENANT_MAX_RUNNING_TASKS_PER_DOMAIN" ∷ []));
  })

  abbrev pub run_env : RunEnv
  run_env = elim (env_scoped_s env "GLOBAL" "ENV" ("CONTEXIDE_ENV" ∷ [])) [
    | some v ↦ if eq_ignore_ascii_case v "prod" then prod else defaults_env
    | none ↦ defaults_env
  ]

  unfoldable pub load_app : Result Error AppConfig
  load_app = context "loading STORAGE config" load_storage >>= λ storage.
      context "loading BLOB_STORAGE config" load_blob_storage >>= λ blob_storage.
      context "loading VECTOR config" load_vector >>= λ vector.
      context "loading EMBEDDINGS config" load_embeddings >>= λ embeddings.
      context "loading API config" load_api >>= λ api.
      context "loading WORKERS config" load_workers >>= λ workers.
      context "loading MESSAGING config" load_messaging >>= λ messaging.
      context "loading WORKFLOW config" load_workflow >>= λ workflow. ok (record {
        env = run_env;
        storage = storage;
        blob_storage = blob_storage;
        vector = vector;
        embeddings = embeddings;
        api = api;
        workers = workers;
        messaging = messaging;
        workflow = workflow;
      })
