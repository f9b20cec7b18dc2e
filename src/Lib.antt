-- ===== src/Lib.antt =====
-- Contexide: a verification library for the workflow engine, its workers and stores, the
-- extractors, normalizer, chunkers and indexer, the configuration and the keys of the
-- repository.
--
-- The program plans a run of five tasks for a document (extractor, normalizer, chunker,
-- embedder, indexer), stores it, dispatches the tasks that are ready to workers, and takes in
-- what workers report. Its parts, and the files here that model them:
--
-- * Workflow (crates/contexide-core/src/workflow; crates/contexide-workflow-core/src is a copy of
--   it). Dag.antt is dag.rs: `Dag`, `build_index`, `topo_order` and `validate` with the two forms
--   of Kahn's loop, `roots`. State.antt and its children are the enums of state.rs. Policy.antt is
--   policy.rs, Run.antt run.rs (`DagRun::mark_running` is `mark_run_running` here,
--   `TaskRun::mark_x` is `mark_attempt_x`), Retry.antt retry.rs (`RetryPolicyKind::decide`),
--   Limits.antt limits.rs (`decide_admission`).
-- * Storage (crates/contexide-storage-pg/src). Workflows.antt has the entities of workflows.rs,
--   Workflows/Mem and its children the repositories of workflows/mem.rs with `list_pending` of
--   crates/contexide-workflow-executor/src/storage.rs. A repository is a map from ids to entities;
--   HashMap.antt is the map. Repos.antt and its children are the repositories in memory of the
--   other nine entities (assets/mem.rs to tenants/mem.rs): Indexed.antt is the text that those
--   with one index share, a map of entities with a map of sets of ids, Buckets.antt such a map of
--   sets. A call is one step, and a `HashSet` lists its members in one of the possible orders.
-- * Executor (crates/contexide-workflow-executor/src). Domain.antt is domain.rs, Planner.antt
--   planner.rs (`create_dag_run`), Scheduler/Ready.antt `schedule_ready_tasks` and
--   Scheduler/Results.antt `handle_worker_status` of scheduler.rs, RetryLogic.antt retry_logic.rs
--   (which nothing in the repository calls: the scheduler decides by `should_retry`),
--   Messaging.antt messaging.rs with the messages of
--   crates/contexide-core/src/messaging/workflow.rs, Runtime.antt runtime.rs, with what holds over
--   all orders of events in its children. Store.antt is the state that they share, the three
--   repositories and the supply of ids; each operation takes it and returns it.
-- * Chunker (crates/contexide-core/src/chunker.rs and crates/contexide-chunker-impl/src).
--   Chunker.antt has `ChunkSpec`, the pieces and the tokenizer, SlidingWindow.antt the chunker of
--   sliding_window.rs and Text.antt that of text.rs with `trim_multiline`.
-- * Normalizer (crates/contexide-normalizer/src). Normalizer.antt has `normalize` and
--   `collapse_whitespace` of text.rs, Html.antt is html.rs, and Markdown.antt markdown.rs: the
--   renderer as a fold over the events of the parser.
-- * Worker (crates/contexide-worker-runtime/src and crates/contexide-workers/src). Runner.antt is
--   runner.rs: `handle_one`, and `WorkerRunner::run` as the relation `Step`, with `ack` and `nack`
--   of crates/contexide-messaging-nats/src/jetstream.rs. Handlers.antt is handlers.rs,
--   Settings.antt config.rs of both crates and `run_worker` of bootstrap.rs; its children
--   Tokens.antt and Delivery.antt say how the transport's documentation matches subjects.
-- * Config (crates/contexide-config/src/lib.rs). Config.antt has the configurations and their
--   defaults, Env.antt the helpers that read the environment, Load.antt the loaders.
-- * Indexer (crates/contexide-indexer/src/lib.rs). Indexer.antt is `SimpleIndexer` with
--   `build_payload`.
-- * BlobStore (crates/contexide-blob-storage-s3/src/mem.rs). BlobStore.antt is `MemStore`.
-- * Extractor (crates/contexide-extractor/src). Extractor.antt has the three extractors of
--   file.rs, http.rs and pdf.rs, Router.antt the router.
-- * Core (crates/contexide-core/src). Entities.antt and its children are the entities of
--   storage/entities.rs. Idempo.antt has the key builders of idempo.rs, Types.antt and its
--   children `ExtractorKind` of traits.rs and the enums of types with their names.
--
-- The planner writes a run and its tasks to the store. The pump polls the scheduler, which reads
-- pending tasks, stores an attempt for each that is ready and publishes a request. A worker's
-- message names the attempt; the scheduler closes it, updates task and run, and may add embed
-- tasks. Runtime.antt takes these as steps in any order, as the two loops of
-- `WorkflowExecutor::run` and the planner may come. A worker takes such a request, gives it to
-- the handler of its kind and publishes the status; how many it does at once, and under which
-- subjects, is read from the environment.
--
-- Prelude.antt and its children hold what all share: tests on numbers and texts, lists by native
-- numbers, `Result`, machine integers (`i32` and `u32` casts with their wrap-around), and the
-- iterator methods.
--
-- Values of other crates are parameters: Json.antt is what is used of serde_json and the UUID
-- parser, `uuid` the ids that are made one after the other, `Tokenizer` a tokenizer, `nfkc` the
-- NFKC form of a text, `parser` and `from_read` the parsers of markdown and HTML, `Env` in
-- Runner.antt what the calls of a worker's task answer, `env` in Config the environment,
-- `client` a client of the transport and `matches` how the transport matches subjects,
-- `provider` and `sink` the two traits that the indexer calls, and `Outside` what the extractors
-- ask of others. Where a theorem needs that ids do not repeat, it says so. Ids are the numbers
-- that UUIDs are, so that the order of `tasks.sort_by_key(|t| t.id.0)` is theirs.
--
-- Loops: Kahn's loop takes one round for each node and runs on a fuel of as many rounds as
-- nodes, which the theorems on `topo_order` and `validate` show to be enough. The loop over the
-- windows of a block runs on a fuel of the block's number of tokens; out of fuel it would return
-- an error, and on a valid spec it returns pieces. All other loops are over lists.
--
-- Not modelled: SQL and Postgres, the transport and its encoding, clocks (the columns of time),
-- logging, tracing, and the errors of I/O that end a loop. `HashMap` lists its values in one of
-- the possible orders. A step of the runtime is taken whole, where the source would let two
-- handlers interleave at each await. Nor are the profiles and the adapters: they meet the
-- workflow engine only through its messages and its store. The workers' handlers are those of
-- the source, which answer without work on the document.
pub mod Prelude
pub mod HashMap
pub mod Workflow
pub mod Storage
pub mod Executor
pub mod Chunker
pub mod Normalizer
pub mod Core
pub mod Worker
pub mod Config
pub mod Indexer
pub mod BlobStore
pub mod Extractor
