-- ===== src/Worker/Samples.antt =====
-- A worker of texts that answers the message "go", and its runner with one permit and with none.
use contexide.Prelude.{
  ℕ, ◌≡◌, ◌≤◌, ◌↔◌, ◌⊎◌, refl, String, true, none, List, [], ◌∷◌, map, filter, all, ok, err, length,
  ◌==◌, string_eq, if◌then◌else◌, arith,
}
use contexide.Executor.Domain.{ReadyTask}
use contexide.Executor.Messaging.{
  WorkerRequest, MessagingClient, on_message, request, trim_end_dots, forward,
  listen_worker_statuses,
}
use contexide.Executor.Samples.{texts, same, policy, store, store-IsOwned}
use contexide.Config.{defaults_messaging, defaults_workers, defaults_storage}
use contexide.Worker.Handlers.{handle}
use contexide.Worker.Handlers.Redelivery.{on_message-redelivered}
use contexide.Worker.Runner.{
  Env, published, acked, nacked, answer, handle_one, holding, stopped, Runner, started, receive,
  spawn, Reach, here, later,
}
use contexide.Worker.Runner.Settled.{Answers, handle_one_lem}
use contexide.Worker.Runner.Permits.{IsAccounted, Reach-IsAccounted, Reach-tasks_le}
use contexide.Worker.Runner.Shutdown.{IsShutdown, Reach-IsShutdown, IsStuck, IsStuck-iff}
use contexide.Worker.Settings.{WorkerAppConfig, runtime_config}
use contexide.Worker.Settings.Tokens.{tokens, has_no_dot}
use contexide.Worker.Settings.Delivery.{HasNoStar}
use contexide.Worker.Settings.Transport.{subject_matches, subject_matches-IsTransport}
use contexide.Worker.Settings.Subjects.{is_token, prefix_of, runtime_config-request_iff}
use contexide.Worker.Settings.Heard.{Answer, delivered, is_own, listen_worker_statuses-filter}

abbrev req : WorkerRequest (List String)
req = record {
  tenant_id = 2;
  dag_run_id = 1;
  task_id = 10;
  task_run_id = 51;
  kind = "extractor";
  payload = [];
}

abbrev env : Env (List String) String
env = record {
  decode = λ raw. if raw == "go" then ok req else err "no request";
  handle = λ r. ok (handle texts 7 "extractor" r);
  encode = λ status. ok "answer";
  publish = λ subject payload. ok tt;
}

abbrev idle : ℕ → Runner String
idle permits = started permits

abbrev blocked : Runner String
blocked = record (idle 0) { phase = holding "go"; received = "go" ∷ [] }

abbrev busy : Runner String
busy = record (idle 1) { permits = 0; tasks = "go" ∷ []; received = "go" ∷ [] }

blocked-Reach : Reach (List String) String "done" (started 0) blocked
blocked-Reach = later here (receive "go" refl)

busy-Reach : Reach (List String) String "done" (started 1) busy
busy-Reach = later (later here (receive "go" refl)) (spawn "go" 0 refl refl)

handled : handle_one env "done" "go" ≡ (published "done" "answer" ∷ acked ∷ [], ok tt)
unfolding handle_one answer
handled = refl

handle_one_lem_example :
    ((payload : String) × Answers env "done" "go" payload
      × (handle_one env "done" "go" ≡ (published "done" payload ∷ acked ∷ [], ok tt)))
    ⊎ (((payload : String) → ¬ Answers env "done" "go" payload)
        × (handle_one env "done" "go" ≡ (nacked ∷ [], ok tt)))
handle_one_lem_example = handle_one_lem env "done" "go"

Reach-tasks_le_example : length busy.tasks ≤ 1
Reach-tasks_le_example = Reach-tasks_le (List String) String "done" 1 busy-Reach

Reach-IsAccounted_example : IsAccounted (List String) String "done" (λ s. s == "go") busy
Reach-IsAccounted_example =
    Reach-IsAccounted (List String) String "done" 1 (λ s. s == "go") busy-Reach

Reach-IsShutdown_example :
    (u : Runner String) × Reach (List String) String "done" busy u
    × IsShutdown (List String) String "done" busy u
Reach-IsShutdown_example =
    Reach-IsShutdown (List String) String "done" env 1 (omega arith) busy-Reach

IsStuck-iff_example : IsStuck (List String) String "done" blocked ↔ (
    (blocked.phase ≡ stopped)
    ⊎ ((◌≡◌ {A = ℕ} 0 0) × ((raw : String) × (blocked.phase ≡ holding raw))))
IsStuck-iff_example = IsStuck-iff (List String) String "done" 0 blocked-Reach

on_message-redelivered_example :
    on_message texts same policy
      (on_message texts same policy store (handle texts 7 "extractor" req))
      (handle texts 8 "extractor" req)
    ≡ on_message texts same policy store (handle texts 7 "extractor" req)
on_message-redelivered_example =
    on_message-redelivered texts same policy store req 7 8 "extractor" "extractor" (store-IsOwned).0

abbrev app_cfg : WorkerAppConfig
app_cfg = record {
  messaging = record defaults_messaging { workflow_prefix = "staging.workflow." };
  workers = defaults_workers;
  storage = defaults_storage;
  blob_storage = none;
  vector = none;
  embeddings = none;
}

abbrev extraction : ReadyTask (List String)
extraction = record {
  tenant_id = 2;
  dag_run_id = 1;
  task_id = 10;
  task_run_id = 51;
  kind = "extractor";
  payload = [];
}

dotless : is_token "extractor" ≡ true
unfolding has_no_dot
dotless = refl

app_cfg-HasNoStar : HasNoStar (tokens (prefix_of app_cfg))
unfolding tokens trim_end_dots
app_cfg-HasNoStar = (λ e. absurd cc, (λ e. absurd cc, tt))

runtime_config-request_iff_example :
    (subject_matches (runtime_config app_cfg "extractor").subject_request (request extraction).0
      ≡ true)
    ↔ (prefix_of app_cfg ≡ "contexide.workflow")
runtime_config-request_iff_example =
    runtime_config-request_iff subject_matches subject_matches-IsTransport app_cfg extraction
      app_cfg-HasNoStar dotless

abbrev own_cfg : WorkerAppConfig
own_cfg = record app_cfg { messaging = defaults_messaging }

-- An answer to the executor's own request, and one from a worker with another prefix.
abbrev answers : List (Answer (List String))
answers =
    record { cfg = app_cfg; kind = "extractor"; message = handle texts 7 "extractor" req }
    ∷ record { cfg = own_cfg; kind = "extractor"; message = handle texts 8 "extractor" req }
    ∷ []

abbrev client : MessagingClient (List String)
client = record { subscribe = λ pattern. delivered subject_matches pattern answers }

answers-single : all (λ (a : Answer (List String)). is_token a.kind) answers ≡ true
answers-single = rw (dotless) refl

listen_worker_statuses-filter_example :
    listen_worker_statuses texts same policy client store
    ≡ forward texts same policy store (map (λ a. a.message) (filter is_own answers))
listen_worker_statuses-filter_example =
    listen_worker_statuses-filter texts same policy subject_matches client store answers
      subject_matches-IsTransport answers-single (λ pattern. refl)
