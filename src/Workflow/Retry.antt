-- ===== src/Workflow/Retry.antt =====
-- crates/contexide-core/src/workflow/retry.rs: after a failure, retry, and when? `u32` arithmetic
-- saturates as in the source. A `Duration` is its number of nanoseconds, at most `max_duration`.
use contexide.Prelude.{
  ℕ, zero, suc, ◌+◌, ◌-◌, ◌*◌, ◌^◌, ◌≤◌, ◌<◌, min, Bool, true, false, leb, ltb, not, if◌then◌else◌,
}
pub mod Backoff

abbrev pub Duration : Type 0
Duration = ℕ

abbrev pub u32_max : ℕ
u32_max = 2 ^ 32 - 1

-- `Duration::MAX`: 2^64 - 1 seconds and 999,999,999 nanoseconds.
abbrev pub max_duration : Duration
max_duration = 2 ^ 64 * 1_000_000_000 - 1

pub data RetryPolicyKind : Type 0 where
  never : RetryPolicyKind
  fixed : ℕ → Duration → RetryPolicyKind
  exponential : ℕ → Duration → Duration → RetryPolicyKind
  infinite_exponential : Duration → Duration → RetryPolicyKind

pub record RetryContext : Type 0 where
  pub attempt_no : ℕ
  pub total_attempts : ℕ
  pub transient_error : Bool

pub data RetryDecision : Type 0 where
  fail : RetryDecision
  retry_after : Duration → RetryDecision

-- `Duration::saturating_mul`
saturating_mul : Duration → ℕ → Duration
saturating_mul d k = min (d * k) max_duration

-- `2_u32.saturating_pow(pow)`
saturating_pow2 : ℕ → ℕ
saturating_pow2 pow = min (2 ^ pow) u32_max

-- The delay that both exponential policies compute.
pub backoff : ℕ → Duration → Duration → Duration
backoff attempt_no base_delay max_delay =
    let pow = min (attempt_no - 1) 16 in
    let delay = saturating_mul base_delay (saturating_pow2 pow) in
    if ltb max_delay delay then max_delay else delay

decide_transient : RetryPolicyKind → RetryContext → RetryDecision
decide_transient never ctx = fail
decide_transient (fixed max_attempts delay) ctx =
    if leb max_attempts ctx.attempt_no then fail else retry_after delay
decide_transient (exponential max_attempts base_delay max_delay) ctx =
    if leb max_attempts ctx.attempt_no
    then fail
    else retry_after (backoff ctx.attempt_no base_delay max_delay)
decide_transient (infinite_exponential base_delay max_delay) ctx =
    retry_after (backoff ctx.attempt_no base_delay max_delay)

pub decide : RetryPolicyKind → RetryContext → RetryDecision
decide policy ctx = if not ctx.transient_error then fail else decide_transient policy ctx
