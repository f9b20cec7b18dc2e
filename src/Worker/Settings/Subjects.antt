-- ===== src/Worker/Settings/Subjects.antt =====
-- The subjects on which executor and workers meet.
use Prim.Native.String.{◌++◌ as ◌<>◌}
use contexide.Prelude.{
  ◌≡◌, ◌≢◌, ◌↔◌, refl, sym, ap, ◌∙◌, String, Bool, true, not, ◌&&◌, List, [], ◌∷◌, ◌++◌, inl, inr,
  is_empty, arith,
}
use contexide.Executor.Domain.{ReadyTask}
use contexide.Executor.Messaging.{
  request, trim_end_dots, worker_request_subject, worker_done_subject,
}
use contexide.Worker.Settings.{WorkerAppConfig, runtime_config}
use contexide.Worker.Settings.Tokens.{tokens, has_no_dot, tokens-one, tokens-dot, tokens_injective}
use contexide.Worker.Settings.Delivery.{
  HasNoEmpty, Matches, IsTransport, HasNoStar, Matches-front, Matches-refl, eq-of_Fit,
}

-- One token of a subject: not empty, and without a dot.
abbrev pub is_token : String → Bool
is_token s = has_no_dot s && not (is_empty s)

-- The prefix that the worker reads from the environment, less the dots at its end.
abbrev pub prefix_of : WorkerAppConfig → String
prefix_of cfg = trim_end_dots cfg.messaging.workflow_prefix

own_prefix : tokens (trim_end_dots "contexide.workflow") ≡ "contexide" ∷ "workflow" ∷ []
unfolding trim_end_dots tokens
own_prefix = refl

own_plain : trim_end_dots "contexide.workflow" ≡ "contexide.workflow"
unfolding trim_end_dots
own_plain = refl

is_token-has_no_dot : (s : String) → is_token s ≡ true → has_no_dot s ≡ true
is_token-has_no_dot s h = ground arith

is_token-not-empty : (s : String) → is_token s ≡ true → s ≢ ""
is_token-not-empty s h e = let k : is_token "" ≡ true = rw e at h in absurd (ground (arith, k))

tokens-subject :
    (prefix kind last : String)
    → has_no_dot kind ≡ true
    → has_no_dot last ≡ true
    → tokens (prefix <> "." <> kind <> "." <> last) ≡ tokens prefix ++ kind ∷ last ∷ []
tokens-subject prefix kind last hk hl =
    tokens-dot prefix (kind <> "." <> last)
    ∙ ap (λ ts. tokens prefix ++ ts)
        (tokens-dot kind last ∙ rw (tokens-one kind hk) (rw (tokens-one last hl) refl))

request_subject :
    (prefix kind : String)
    → has_no_dot kind ≡ true
    → tokens (prefix <> "." <> kind <> ".request") ≡ tokens prefix ++ kind ∷ "request" ∷ []
unfolding has_no_dot
request_subject prefix kind h = tokens-subject prefix kind "request" h refl

done_subject :
    (prefix kind : String)
    → has_no_dot kind ≡ true
    → tokens (prefix <> "." <> kind <> ".done") ≡ tokens prefix ++ kind ∷ "done" ∷ []
unfolding has_no_dot
done_subject prefix kind h = tokens-subject prefix kind "done" h refl

star-has_no_dot : has_no_dot "*" ≡ true
unfolding has_no_dot
star-has_no_dot = refl

own-HasNoEmpty :
    (kind last : String)
    → is_token kind ≡ true
    → last ≢ ""
    → HasNoEmpty ("contexide" ∷ "workflow" ∷ kind ∷ last ∷ [])
own-HasNoEmpty kind last one some_last =
    (λ e. absurd cc, (λ e. absurd cc, (is_token-not-empty kind one, (some_last, tt))))

tokens-of_own :
    (prefix : String)
    → prefix ≡ "contexide.workflow"
    → tokens prefix ≡ "contexide" ∷ "workflow" ∷ []
tokens-of_own prefix e = ap tokens (e ∙ sym own_plain) ∙ own_prefix

own-of_tokens :
    (prefix : String)
    → tokens prefix ≡ "contexide" ∷ "workflow" ∷ []
    → prefix ≡ "contexide.workflow"
own-of_tokens prefix e =
    tokens_injective prefix "contexide.workflow" (e ∙ sym own_prefix ∙ ap tokens own_plain)

module _ (matches : String → String → Bool) (documented : IsTransport matches) where
  -- Where the transport matches subjects as its documentation says, the worker's prefix has no
  -- wildcard and the kind is one token: the request that the executor publishes for a task comes to
  -- the subscription of the worker of its kind exactly if the worker's configured prefix, less the
  -- dots at its end, is contexide.workflow.
  pub runtime_config-request_iff :
      {Value : Type 0} (cfg : WorkerAppConfig) (task : ReadyTask Value)
      → HasNoStar (tokens (prefix_of cfg))
      → is_token task.kind ≡ true
      → (matches (runtime_config cfg task.kind).subject_request (request task).0 ≡ true)
        ↔ (prefix_of cfg ≡ "contexide.workflow")
  unfolding runtime_config worker_request_subject
  runtime_config-request_iff cfg task plain one =
      let dotless = is_token-has_no_dot task.kind one in
      let pattern = request_subject (prefix_of cfg) task.kind dotless in
      let subject = request_subject (trim_end_dots "contexide.workflow") task.kind dotless in
      (
        λ h.
            let (_, m) = (documented _ _).0 h in
            let n : Matches (tokens (prefix_of cfg) ++ task.kind ∷ "request" ∷ [])
                ("contexide" ∷ "workflow" ∷ task.kind ∷ "request" ∷ []) =
              rw (pattern, subject, own_prefix) at m in
            own-of_tokens (prefix_of cfg) (
              eq-of_Fit _ _ plain (
                Matches-front task.kind task.kind "request" (λ e. absurd cc)
                  (tokens (prefix_of cfg)) ("contexide" ∷ "workflow" ∷ []) n)),
        λ e.
            let own = tokens-of_own (prefix_of cfg) e in
            let full : List String = "contexide" ∷ "workflow" ∷ task.kind ∷ "request" ∷ [] in
            let m : HasNoEmpty full × Matches full full =
              (own-HasNoEmpty task.kind "request" one (λ e. absurd cc), Matches-refl full) in
            (documented _ _).1 (rw (pattern, subject, own_prefix, own) m),
      )

  -- So for the subscription of the executor and the answers of a worker.
  pub done_iff :
      (cfg : WorkerAppConfig) (kind : String)
      → is_token kind ≡ true
      → (matches
            (worker_done_subject "contexide.workflow" "*")
            (runtime_config cfg kind).subject_done
          ≡ true)
        ↔ (prefix_of cfg ≡ "contexide.workflow")
  unfolding runtime_config worker_done_subject
  done_iff cfg kind one =
      let pattern = done_subject (trim_end_dots "contexide.workflow") "*" star-has_no_dot in
      let subject = done_subject (prefix_of cfg) kind (is_token-has_no_dot kind one) in
      let full : List String = "contexide" ∷ "workflow" ∷ "*" ∷ "done" ∷ [] in
      (
        λ h.
            let (_, m) = (documented _ _).0 h in
            let n : Matches full (tokens (prefix_of cfg) ++ kind ∷ "done" ∷ []) =
              rw (pattern, subject, own_prefix) at m in
            own-of_tokens (prefix_of cfg) (
              sym (
                eq-of_Fit _ _ (λ e. absurd cc, (λ e. absurd cc, tt))
                  (Matches-front "*" kind "done" (λ e. absurd cc) ("contexide" ∷ "workflow" ∷ [])
                    (tokens (prefix_of cfg)) n))),
        λ e.
            let own = tokens-of_own (prefix_of cfg) e in
            let heard : List String = "contexide" ∷ "workflow" ∷ kind ∷ "done" ∷ [] in
            let m : HasNoEmpty heard × Matches full heard = (
              own-HasNoEmpty kind "done" one (λ e. absurd cc),
              inr (inr refl, inr (inr refl, inr (inl refl, inr (inr refl, tt)))),
            ) in
            (documented _ _).1 (rw (pattern, subject, own_prefix, own) m),
      )
