-- ===== src/Executor/RetryLogic/Totals.antt =====
-- After which attempts `decide_retry_for_task` decides for a retry.
use contexide.Prelude.{
  ℕ, ◌≡◌, ◌≢◌, ◌↔◌, ap, true, false, Option, none, some, Bool, string_eq, as_u32,
}
use contexide.Storage.Workflows.{Task, TaskRun}
use contexide.Workflow.Retry.{fail}
use contexide.Workflow.Retry.Backoff.{Permits, decide-retries_iff}
use contexide.Executor.Json.{Json}
use contexide.Executor.RetryLogic.{
  DomainRetryDefaults, unwrap_or, resolve_policy, decide_retry_for_task,
}

module _ (json : Json) where
  open json use {Value}

  transient_iff : (o : Option Bool) → (unwrap_or o false ≡ true) ↔ (o ≡ some true)
  transient_iff none = (λ h. absurd cc, λ h. absurd cc)
  transient_iff (some b) = (λ h. ap some h, λ h. cc)

  -- The decision is another than to fail exactly if the last attempt's error is marked as transient,
  -- and the task's policy permits a retry after an attempt of its number.
  pub decide_retry_for_task_iff :
      (task : Task Value) (last_run : TaskRun) (defaults : DomainRetryDefaults) (total : ℕ)
      → (decide_retry_for_task json task last_run defaults total ≢ fail) ↔ (
          (last_run.transient_error ≡ some true)
          × Permits (resolve_policy json task defaults) (as_u32 last_run.attempt_no))
  unfolding decide_retry_for_task
  decide_retry_for_task_iff task last_run defaults total =
      let (a, b) = decide-retries_iff (resolve_policy json task defaults) _ in
      let (c, d) = transient_iff last_run.transient_error in
      (λ h. let (e, f) = a h in (c e, f), λ (e, f). b (d e, f))
