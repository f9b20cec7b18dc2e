-- ===== src/Executor/Runtime/Final.antt =====
-- Attempts over all orders of events.
use contexide.Prelude.{ℕ, ◌≤◌, ◌≡◌, sym, ap, ◌∙◌, inl, inr, true, none, some, List, [], ◌∷◌, arith}
use contexide.Workflow.State.TaskRunStatus
use contexide.Storage.Workflows.{TaskRun}
use contexide.Storage.Workflows.Mem.TaskRuns
use contexide.Executor.Domain.{RetryPolicy, WorkerStatus}
use contexide.Executor.Json.{Json}
use contexide.Executor.Store.{Store}
use contexide.Executor.Messaging.{pump_requests, on_message, status_of}
use contexide.Executor.Planner.Attempts.{create_dag_run-IsGrown}
use contexide.Executor.Runtime.{Event, planned, polled, reported, step, run}
use contexide.Executor.Scheduler.Ready.Attempts.{IsGrown, schedule_ready_tasks-IsGrown}
use contexide.Executor.Scheduler.Results.{handle_worker_status}
use contexide.Executor.Scheduler.Results.Attempts.{closed}
use contexide.Executor.Scheduler.Results.Delivery.{attempts-after, issued-after, closed-is_terminal}

-- No later id is one made before: `Uuid::new_v4` does not repeat.
abbrev pub IsFresh : (ℕ → ℕ) → Type 0
IsFresh uuid = (m n : ℕ) → uuid m ≡ uuid n → m ≡ n

module _ {Value : Type 0} (uuid : ℕ → ℕ) where
  -- Attempts are stored under their own ids, and under none that is still to be made.
  abbrev pub IsOwned : Store Value → Type 0
  IsOwned store =
      ((k : ℕ) (run : TaskRun) → TaskRuns.get store.task_runs k ≡ some run → run.id ≡ k)
      × ((n : ℕ) → store.issued ≤ n → TaskRuns.get store.task_runs (uuid n) ≡ none)

  -- What is over stays as it is.
  abbrev pub IsKept : Store Value → Store Value → Type 0
  IsKept old new =
      (k : ℕ) (run : TaskRun)
      → TaskRuns.get old.task_runs k ≡ some run
      → TaskRunStatus.is_terminal run.status ≡ true
      → TaskRuns.get new.task_runs k ≡ some run

  pub grown-IsOwned :
      IsFresh uuid → (old new : Store Value) → IsGrown uuid old new → IsOwned old → IsOwned new
  unfolding IsGrown
  grown-IsOwned fresh old new (later, grows) (keyed, unused) = (
    λ k run found. elim (grows k) [
      | inl same ↦ keyed k run (sym same ∙ found)
      | inr (n, made, lo, hi, at_k, there, own, runs) ↦
          let e : some run ≡ some made = sym found ∙ there in let e' : run ≡ made = cc in rw e' own
    ],
    λ n after. elim (grows (uuid n)) [
      | inl same ↦ same ∙ unused n (omega arith)
      | inr (m, made, lo, hi, at_k, there, own, runs) ↦
          let e = fresh n m at_k in absurd (omega arith)
    ],
  )

  grown-IsKept : (old new : Store Value) → IsGrown uuid old new → IsOwned old → IsKept old new
  unfolding IsGrown
  grown-IsKept old new (later, grows) (keyed, unused) k run found over = elim (grows k) [
    | inl same ↦ same ∙ found
    | inr (n, made, lo, hi, at_k, there, own, runs) ↦
        let gone = ap (λ i. TaskRuns.get old.task_runs i) at_k ∙ unused n lo in
        let e : some run ≡ none = sym found ∙ gone in absurd cc
  ]

module _ (json : Json) (uuid : ℕ → ℕ) (policy : RetryPolicy) where
  open json use {Value}

  reported-IsOwned :
      (store : Store Value) (status : WorkerStatus Value)
      → IsOwned uuid store
      → IsOwned uuid (handle_worker_status json uuid policy store status)
  reported-IsOwned store status (keyed, unused) = (
    λ k run found. elim (attempts-after json uuid policy store status keyed k) [
      | inl same ↦ keyed k run (sym same ∙ found)
      | inr (old, at_k, was, going, now) ↦
          let e : some run ≡ some (closed json uuid status old) = sym found ∙ now in
          let e' : run ≡ closed json uuid status old = cc in
          rw e' ((closed-is_terminal json uuid policy status old).1 ∙ keyed k old was)
    ],
    λ n after. elim (attempts-after json uuid policy store status keyed (uuid n)) [
      | inl same ↦ same ∙ unused n (omega (arith, issued-after json uuid policy store status))
      | inr (old, at_k, was, going, now) ↦
          let gone = unused n (omega (arith, issued-after json uuid policy store status)) in
          let e : some old ≡ none = sym was ∙ gone in absurd cc
    ],
  )

  reported-IsKept :
      (store : Store Value) (status : WorkerStatus Value)
      → IsOwned uuid store
      → IsKept uuid store (handle_worker_status json uuid policy store status)
  reported-IsKept store status (keyed, unused) k run found over =
      elim (attempts-after json uuid policy store status keyed k) [
        | inl same ↦ same ∙ found
        | inr (old, at_k, was, going, now) ↦
            let e : some run ≡ some old = sym found ∙ was in
            let e' : run ≡ old = cc in
            let o : TaskRunStatus.is_terminal old.status ≡ true = rw (sym e') over in absurd cc
      ]

  -- Every event keeps the invariant of the attempts, and the attempts that are over.
  pub step-IsOwned :
      IsFresh uuid
      → (store : Store Value) (e : Event Value) → IsOwned uuid store
      → IsOwned uuid (step json uuid policy store e)
        × IsKept uuid store (step json uuid policy store e)
  unfolding step pump_requests on_message
  step-IsOwned fresh store (planned tenant_id profile input) owned =
      let grown = create_dag_run-IsGrown json uuid store tenant_id profile input in
      (grown-IsOwned uuid fresh store _ grown owned, grown-IsKept uuid store _ grown owned)
  step-IsOwned fresh store (polled max_batch) owned =
      let grown = schedule_ready_tasks-IsGrown uuid max_batch store in
      (grown-IsOwned uuid fresh store _ grown owned, grown-IsKept uuid store _ grown owned)
  step-IsOwned fresh store (reported done) owned =
      (reported-IsOwned store (status_of done) owned, reported-IsKept store (status_of done) owned)

  run-both :
      IsFresh uuid
      → (store : Store Value) (events : List (Event Value)) → IsOwned uuid store
      → IsOwned uuid (run json uuid policy store events)
        × IsKept uuid store (run json uuid policy store events)
  unfolding run
  run-both fresh store [] owned = (owned, λ k r found over. found)
  run-both fresh store (e ∷ events) owned =
      let (owned', kept) = step-IsOwned fresh store e owned in
      let (owned'', kept') = run-both fresh (step json uuid policy store e) events owned' in
      (owned'', λ k r found over. kept' k r (kept k r found over) over)

  -- Where no id is made twice: in whatever order runs are planned, tasks are polled and workers
  -- report, attempts stay stored under their own ids, and under none that is still to be made.
  pub run-IsOwned :
      IsFresh uuid
      → (store : Store Value) (events : List (Event Value)) → IsOwned uuid store
      → IsOwned uuid (run json uuid policy store events)
  run-IsOwned fresh store events owned = (run-both fresh store events owned).0

  -- Where, further, attempts are so stored at the start: an attempt that is over is never changed by
  -- any sequence of plans, polls and reports.
  pub run-final :
      IsFresh uuid
      → (store : Store Value) (events : List (Event Value)) → IsOwned uuid store
      → (k : ℕ) (attempt : TaskRun) → TaskRuns.get store.task_runs k ≡ some attempt
      → TaskRunStatus.is_terminal attempt.status ≡ true
      → TaskRuns.get (run json uuid policy store events).task_runs k ≡ some attempt
  run-final fresh store events owned = (run-both fresh store events owned).1
