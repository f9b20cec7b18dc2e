-- ===== src/Worker/Settings/Heard.antt =====
-- What the executor hears of the workers.
use contexide.Prelude.{
  ℕ, ◌≡◌, refl, ap, ◌∙◌, String, Bool, true, List, [], ◌∷◌, map, filter, all, inl, inr, ◌==◌,
  ==_iff, string_eq, Bool-cases, arith,
}
use contexide.Executor.Domain.{RetryPolicy}
use contexide.Executor.Json.{Json}
use contexide.Executor.Store.{Store}
use contexide.Executor.Messaging.{
  MsgWorkerStatus, MessagingClient, worker_done_subject, forward, listen_worker_statuses,
}
use contexide.Worker.Settings.{WorkerAppConfig, runtime_config}
use contexide.Worker.Settings.Delivery.{IsTransport}
use contexide.Worker.Settings.Subjects.{is_token, prefix_of, done_iff}

-- An answer with the worker that publishes it: its configuration and the kind it is started for.
pub record Answer (Value : Type 0) : Type 0 where
  pub cfg : WorkerAppConfig
  pub kind : String
  pub message : MsgWorkerStatus Value

module _ {Value : Type 0} where
  -- What comes to a subscription of what was published: those under a subject that it matches.
  abbrev pub delivered :
      (String → String → Bool) → String → List (Answer Value) → List (MsgWorkerStatus Value)
  delivered matches pattern answers =
      map (λ a. a.message)
        (filter (λ a. matches pattern (runtime_config a.cfg a.kind).subject_done) answers)

  abbrev pub is_own : Answer Value → Bool
  is_own a = prefix_of a.cfg == "contexide.workflow"

  delivered_lem :
      (matches : String → String → Bool)
      → IsTransport matches
      → (answers : List (Answer Value)) → all (λ a. is_token a.kind) answers ≡ true
      → delivered matches (worker_done_subject "contexide.workflow" "*") answers
        ≡ map (λ a. a.message) (filter is_own answers)
  delivered_lem matches documented [] h = refl
  delivered_lem matches documented (a ∷ answers) h =
      let rest = delivered_lem matches documented answers (ground arith) in
      let (there, back) = done_iff matches documented a.cfg a.kind (ground arith) in
      elim (Bool-cases (is_own a)) [
        | inl own ↦
            let heard = back ((==_iff (prefix_of a.cfg) "contexide.workflow").0 own) in
            rw (heard, own) (ap (λ l. a.message ∷ l) rest)
        | inr foreign ↦
            elim (Bool-cases (
              matches (worker_done_subject "contexide.workflow" "*")
                (runtime_config a.cfg a.kind).subject_done)) [
                  | inl heard ↦
                      let own = (==_iff (prefix_of a.cfg) "contexide.workflow").1 (there heard) in
                      absurd (ground (arith, own, foreign))
                  | inr unheard ↦ rw (unheard, foreign) rest
                ]
      ]

module _ (json : Json) (uuid : ℕ → ℕ) (policy : RetryPolicy) where
  open json use {Value}

  -- Where the transport matches subjects as its documentation says, the client gives a subscription
  -- what was published under a subject that it matches, and each worker's kind is one token: the
  -- executor takes in, in order, the answers of the workers whose configured prefix, less the dots at
  -- its end, is contexide.workflow, and no others.
  pub listen_worker_statuses-filter :
      (matches : String → String → Bool) (client : MessagingClient Value) (store : Store Value)
      (answers : List (Answer Value))
      → IsTransport matches
      → all (λ a. is_token a.kind) answers ≡ true
      → ((pattern : String) → client.subscribe pattern ≡ delivered matches pattern answers)
      → listen_worker_statuses json uuid policy client store
        ≡ forward json uuid policy store (map (λ a. a.message) (filter is_own answers))
  unfolding listen_worker_statuses
  listen_worker_statuses-filter matches client store answers documented single gives =
      ap (forward json uuid policy store)
        (gives _ ∙ delivered_lem matches documented answers single)
