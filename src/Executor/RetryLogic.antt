-- ===== src/Executor/RetryLogic.antt =====
-- crates/contexide-workflow-executor/src/retry_logic.rs: the policy that a stored task asks for, and
-- the decision about another attempt. `Duration::from_millis` takes milliseconds; a `Duration` of the
-- model is its nanoseconds.
use contexide.Prelude.{
  ℕ, ◌*◌, String, Bool, true, false, Option, none, some, ℤ, as_u32, if◌then◌else◌, string_eq, ◌==◌,
}
use contexide.Storage.Workflows.{Task, TaskRun}
use contexide.Workflow.Retry.{
  Duration, RetryPolicyKind, never, fixed, exponential, infinite_exponential, RetryContext,
  RetryDecision, decide,
}
use contexide.Executor.Json.{Json}
pub mod Totals

-- `unwrap_or`
abbrev pub unwrap_or {ℓ} : {A : Type ℓ} → Option A → A → A
unwrap_or none d = d
unwrap_or (some a) d = a

pub record DomainRetryDefaults : Type 0 where
  pub policy : RetryPolicyKind
  pub max_attempts : ℕ

abbrev from_millis : ℕ → Duration
from_millis ms = ms * 1_000_000

module _ (json : Json) where
  open json use {Value}

  -- `task.retry_params.get(key).and_then(|v| v.as_u64()).unwrap_or(default)`
  pub param_or : Task Value → String → ℕ → ℕ
  param_or task key default = elim (json.get task.retry_params key) [
    | some v ↦ unwrap_or (json.as_u64 v) default
    | none ↦ default
  ]

  -- `task.max_attempts.map(|m| m as u32).unwrap_or(defaults.max_attempts)`
  pub max_attempts_or : Task Value → ℕ → ℕ
  max_attempts_or task default = elim task.max_attempts [ some m ↦ as_u32 m | none ↦ default ]

  pub parse_policy : Task Value → DomainRetryDefaults → RetryPolicyKind
  parse_policy task defaults =
      if task.retry_policy == "never"
      then never
      else if task.retry_policy == "fixed"
      then fixed (max_attempts_or task defaults.max_attempts)
          (from_millis (param_or task "delay_ms" 30_000))
      else if task.retry_policy == "exponential"
      then exponential (max_attempts_or task defaults.max_attempts)
          (from_millis (param_or task "base_delay_ms" 1_000))
          (from_millis (param_or task "max_delay_ms" 600_000))
      else if task.retry_policy == "infinite_exponential"
      then infinite_exponential (from_millis (param_or task "base_delay_ms" 1_000))
          (from_millis (param_or task "max_delay_ms" 600_000))
      else defaults.policy

  pub resolve_policy : Task Value → DomainRetryDefaults → RetryPolicyKind
  resolve_policy task defaults = parse_policy task defaults

  pub decide_retry_for_task : Task Value → TaskRun → DomainRetryDefaults → ℕ → RetryDecision
  decide_retry_for_task task last_run domain_defaults total_attempts_for_task =
      decide (resolve_policy task domain_defaults) (record {
        attempt_no = as_u32 last_run.attempt_no;
        total_attempts = total_attempts_for_task;
        transient_error = unwrap_or last_run.transient_error false;
      })
