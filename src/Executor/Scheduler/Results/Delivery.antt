-- ===== src/Executor/Scheduler/Results/Delivery.antt =====
-- Messages of workers come at least once: what a repeated or late message does.
use contexide.Prelude.{
  ℕ, ◌≤◌, ◌≡◌, ◌⊎◌, refl, sym, ap, ◌∙◌, inl, inr, Bool, true, false, none, some, nat_eq, ◌==◌,
  ==_iff, arith, Bool-cases, Option-cases, if◌then◌else◌,
}
use native.Mathlib.Nat.{le_of_eq}
use contexide.HashMap.{get-insert}
use contexide.Workflow.State.TaskRunStatus
use contexide.Storage.Workflows.{TaskRun}
use contexide.Storage.Workflows.Mem.TaskRuns
use contexide.Executor.Domain.{WorkerStatus, success, failed, RetryPolicy}
use contexide.Executor.Json.{Json}
use contexide.Executor.Store.{Store}
use contexide.Executor.Scheduler.Results.{handle_attempt, handle_worker_status, origin}
use contexide.Executor.Scheduler.Results.Attempts.{closed, runs-handle_attempt}

module _ (json : Json) (uuid : ℕ → ℕ) (policy : RetryPolicy) where
  open json use {Value}

  -- The message is ignored.
  ignored_of_none :
      (store : Store Value) (status : WorkerStatus Value)
      → TaskRuns.get store.task_runs (origin json uuid status).task_run_id ≡ none
      → handle_worker_status json uuid policy store status ≡ store
  unfolding handle_worker_status
  ignored_of_none store status gone = ground arith

  ignored_of_terminal :
      (store : Store Value) (status : WorkerStatus Value) (run : TaskRun)
      → TaskRuns.get store.task_runs (origin json uuid status).task_run_id ≡ some run
      → TaskRunStatus.is_terminal run.status ≡ true
      → handle_worker_status json uuid policy store status ≡ store
  unfolding handle_worker_status
  ignored_of_terminal store status run found over = ground arith

  pub handled_of_open :
      (store : Store Value) (status : WorkerStatus Value) (run : TaskRun)
      → TaskRuns.get store.task_runs (origin json uuid status).task_run_id ≡ some run
      → TaskRunStatus.is_terminal run.status ≡ false
      → handle_worker_status json uuid policy store status
        ≡ handle_attempt json uuid policy store status run
  unfolding handle_worker_status
  handled_of_open store status run found going = ground arith

  pub closed-is_terminal :
      (status : WorkerStatus Value) (run : TaskRun)
      → (TaskRunStatus.is_terminal (closed json uuid status run).status ≡ true)
        × ((closed json uuid status run).id ≡ run.id)
  unfolding closed TaskRunStatus.is_terminal
  closed-is_terminal (success from output) run = (refl, refl)
  closed-is_terminal (failed from error error_kind) run = (refl, refl)

  module _ (store : Store Value) (status : WorkerStatus Value) where
    abbrev after : Store Value
    after = handle_worker_status json uuid policy store status

    abbrev id : ℕ
    id = (origin json uuid status).task_run_id

    -- What is stored of each attempt after a message for an attempt that is not over.
    attempts_of_open :
        (run : TaskRun)
        → TaskRuns.get store.task_runs id ≡ some run
        → TaskRunStatus.is_terminal run.status ≡ false
        → (k : ℕ)
        → TaskRuns.get after.task_runs k ≡ (
            if run.id == k
            then some (closed json uuid status run)
            else TaskRuns.get store.task_runs k)
    attempts_of_open run found going k =
        ap (λ (s : Store Value). TaskRuns.get s.task_runs k)
          (handled_of_open store status run found going)
        ∙ ap (λ m. TaskRuns.get m k) (runs-handle_attempt json uuid policy store status run).0
        ∙ get-insert (closed json uuid status run).id k (closed json uuid status run)
            store.task_runs
        ∙ ap
            (λ (i : ℕ).
              if i == k then some (closed json uuid status run) else TaskRuns.get store.task_runs k)
            (closed-is_terminal status run).1

    pub issued-after : store.issued ≤ after.issued
    issued-after = elim (Option-cases (TaskRuns.get store.task_runs id)) [
      | inl gone ↦
          le_of_eq (ap (λ (s : Store Value). s.issued) (sym (ignored_of_none store status gone)))
      | inr (run, found) ↦ elim (Bool-cases (TaskRunStatus.is_terminal run.status)) [
        | inl over ↦ le_of_eq (
            ap (λ (s : Store Value). s.issued)
              (sym (ignored_of_terminal store status run found over)))
        | inr going ↦ omega (
          arith,
          ap (λ (s : Store Value). s.issued) (handled_of_open store status run found going),
          (runs-handle_attempt json uuid policy store status run).1,
        )
      ]
    ]

    -- What a message does to each attempt: one that is not over is closed if it is the one that the
    -- message names; all others stay as they are.
    pub attempts-after :
        ((k : ℕ) (run : TaskRun) → TaskRuns.get store.task_runs k ≡ some run → run.id ≡ k)
        → (k : ℕ)
        → (TaskRuns.get after.task_runs k ≡ TaskRuns.get store.task_runs k)
          ⊎ ((run : TaskRun) × (k ≡ id)
              × (TaskRuns.get store.task_runs k ≡ some run)
              × (TaskRunStatus.is_terminal run.status ≡ false)
              × (TaskRuns.get after.task_runs k ≡ some (closed json uuid status run)))
    attempts-after keyed k = elim (Option-cases (TaskRuns.get store.task_runs id)) [
      | inl gone ↦
          inl (
            ap (λ (s : Store Value). TaskRuns.get s.task_runs k)
              (ignored_of_none store status gone))
      | inr (run, found) ↦ elim (Bool-cases (TaskRunStatus.is_terminal run.status)) [
        | inl over ↦ inl (
            ap (λ (s : Store Value). TaskRuns.get s.task_runs k)
              (ignored_of_terminal store status run found over))
        | inr going ↦
            let here : run.id ≡ id = keyed id run found in
            elim (Bool-cases (run.id == k)) [
              | inl same ↦
                  let at_k : k ≡ id = sym ((==_iff run.id k).0 same) ∙ here in
                  inr (
                    run,
                    at_k,
                    ap (λ i. TaskRuns.get store.task_runs i) at_k ∙ found,
                    going,
                    attempts_of_open run found going k
                        ∙ ap
                            (λ (b : Bool).
                              if b
                              then some (closed json uuid status run)
                              else TaskRuns.get store.task_runs k)
                            same,
                  )
              | inr other ↦ inl (
                  attempts_of_open run found going k
                  ∙ ap
                      (λ (b : Bool).
                        if b
                        then some (closed json uuid status run)
                        else TaskRuns.get store.task_runs k)
                      other)
            ]
      ]
    ]

  -- Where attempts are stored under their own ids, only the first report on an attempt has an
  -- effect: any later report on it, the same or another, changes nothing.
  pub handle_worker_status_first :
      (store : Store Value) (status late : WorkerStatus Value)
      → ((k : ℕ) (run : TaskRun) → TaskRuns.get store.task_runs k ≡ some run → run.id ≡ k)
      → (origin json uuid late).task_run_id ≡ (origin json uuid status).task_run_id
      → handle_worker_status json uuid policy
          (handle_worker_status json uuid policy store status)
          late
        ≡ handle_worker_status json uuid policy store status
  handle_worker_status_first store status late keyed again =
      let id = (origin json uuid status).task_run_id in
      let handled : Store Value = handle_worker_status json uuid policy store status in
      let late_at = λ (s : Store Value). ap (λ i. TaskRuns.get s.task_runs i) again in
      elim (Option-cases (TaskRuns.get store.task_runs id)) [
        | inl gone ↦
            let same = ignored_of_none store status gone in
            ap (λ s. handle_worker_status json uuid policy s late) same
            ∙ ignored_of_none store late (late_at store ∙ gone)
            ∙ sym same
        | inr (run, found) ↦ elim (Bool-cases (TaskRunStatus.is_terminal run.status)) [
          | inl over ↦
              let same = ignored_of_terminal store status run found over in
              ap (λ s. handle_worker_status json uuid policy s late) same
              ∙ ignored_of_terminal store late run (late_at store ∙ found) over
              ∙ sym same
          | inr going ↦
              ignored_of_terminal handled late (closed json uuid status run)
                (late_at handled
                  ∙ attempts_of_open store status run found going id
                  ∙ ap
                      (λ (b : Bool).
                        if b
                        then some (closed json uuid status run)
                        else TaskRuns.get store.task_runs id)
                      ((==_iff run.id id).1 (keyed _ run found)))
                (closed-is_terminal status run).0
        ]
      ]

  pub handle_worker_status-idempotent :
      (store : Store Value) (status : WorkerStatus Value)
      → ((k : ℕ) (run : TaskRun) → TaskRuns.get store.task_runs k ≡ some run → run.id ≡ k)
      → handle_worker_status json uuid policy
          (handle_worker_status json uuid policy store status)
          status
        ≡ handle_worker_status json uuid policy store status
  handle_worker_status-idempotent store status keyed =
      handle_worker_status_first store status status keyed refl
