-- ===== src/Workflow/Policy.antt =====
-- crates/contexide-core/src/workflow/policy.rs: the policy snapshot that storage keeps as JSON.
use contexide.Prelude.{ℕ, String, Option}

pub data RetryStrategyKind : Type 0 where
  none fixed exponential : RetryStrategyKind

pub record RetryPolicy : Type 0 where
  pub max_attempts : ℕ
  pub kind : RetryStrategyKind
  pub base_delay_ms : ℕ
  pub jitter_ms : ℕ
  pub max_delay_ms : Option ℕ

pub record QuotaBucketRef : Type 0 where
  pub scope : String
  pub key : String

pub record QuotaConfig : Type 0 where
  pub max_concurrent : ℕ
  pub rate_per_minute : ℕ

pub record ExecutionPolicy : Type 0 where
  pub retry : RetryPolicy
  pub quota_bucket : Option QuotaBucketRef
  pub quota_config : Option QuotaConfig
