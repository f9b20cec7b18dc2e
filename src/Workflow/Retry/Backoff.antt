-- ===== src/Workflow/Retry/Backoff.antt =====
-- When `decide` retries, and how long it waits.
use contexide.Prelude.{
  ℕ, zero, suc, ◌-◌, ◌*◌, ◌^◌, ◌≤◌, ◌<◌, ◌≡◌, ◌≢◌, ◌↔◌, inl, inr, Bool-cases, leb, if◌then◌else◌,
  min, true, arith, sym, ◌∙◌, refl,
}
use native.Mathlib.Nat.{pow-suc, mul-le-mul_left}
use contexide.Workflow.Retry.{
  Duration, max_duration, RetryPolicyKind, never, fixed, exponential, infinite_exponential,
  RetryContext, RetryDecision, fail, saturating_mul, saturating_pow2, backoff, decide_transient,
  decide,
}

-- May the policy retry after attempt `k`?
abbrev pub Permits : RetryPolicyKind → ℕ → Type 0
Permits never k = ⊥
Permits (fixed max_attempts _) k = k < max_attempts
Permits (exponential max_attempts _ _) k = k < max_attempts
Permits (infinite_exponential _ _) k = Unit

lt_of_counted :
    (max_attempts k : ℕ) (r : RetryDecision)
    → (if leb max_attempts k then fail else r) ≢ fail
    → k < max_attempts
lt_of_counted max_attempts k r h = elim (Bool-cases (leb max_attempts k)) [
  | inl over ↦ absurd (h (ground arith))
  | inr under ↦ ground arith
]

decide_transient_iff :
    (policy : RetryPolicyKind) (ctx : RetryContext)
    → (decide_transient policy ctx ≢ fail) ↔ Permits policy ctx.attempt_no
unfolding decide_transient
decide_transient_iff never ctx = (λ h. h refl, λ h. absurd h)
decide_transient_iff (fixed m delay) ctx = (lt_of_counted m ctx.attempt_no _, λ h e. ground arith)
decide_transient_iff (exponential m base most) ctx =
    (lt_of_counted m ctx.attempt_no _, λ h e. ground arith)
decide_transient_iff (infinite_exponential base most) ctx = (λ h. tt, λ h e. cc)

-- A failed attempt is retried exactly if the error is transient and the policy permits one more.
pub decide-retries_iff :
    (policy : RetryPolicyKind) (ctx : RetryContext)
    → (decide policy ctx ≢ fail) ↔ ((ctx.transient_error ≡ true) × Permits policy ctx.attempt_no)
unfolding decide
decide-retries_iff policy ctx = elim (Bool-cases ctx.transient_error) [
  | inl e ↦
      let same : decide policy ctx ≡ decide_transient policy ctx = ground arith in
      (
        λ h. (e, (decide_transient_iff policy ctx).0 (λ p. h (same ∙ p))),
        λ h p. (decide_transient_iff policy ctx).1 h.1 (sym same ∙ p),
      )
  | inr e ↦ (λ h. absurd (h (ground arith)), λ h. cc)
]

pow2_mono : (a b : ℕ) → a ≤ b → 2 ^ a ≤ 2 ^ b
pow2_mono zero zero h = omega arith
pow2_mono zero (suc b) h = omega (arith, pow2_mono zero b (omega arith), pow-suc 2 b)
pow2_mono (suc a) zero h = absurd (omega arith)
pow2_mono (suc a) (suc b) h = omega (arith, pow2_mono a b (omega arith), pow-suc 2 a, pow-suc 2 b)

-- The factor is below 2 ^ 17, so the `u32` power never saturates.
saturating_pow2_lem : (k : ℕ) → k ≤ 16 → saturating_pow2 k ≡ 2 ^ k
unfolding saturating_pow2
saturating_pow2_lem k h = omega (arith, pow2_mono k 16 h)

-- The delay after attempt `k` is base * 2^(k - 1), the exponent at most 16, cut off at the limit and
-- at the greatest `Duration`.
pub backoff_lem :
    (k : ℕ) (base limit : Duration)
    → backoff k base limit ≡ min (min (base * 2 ^ min (k - 1) 16) max_duration) limit
unfolding backoff saturating_mul
backoff_lem k base limit = rw (saturating_pow2_lem (min (k - 1) 16) (omega arith)) (ground arith)

-- A later attempt never waits less than an earlier one, and no wait passes the policy's cap.
pub backoff_mono :
    (j k : ℕ) (base limit : Duration)
    → j ≤ k
    → (backoff j base limit ≤ backoff k base limit) × (backoff k base limit ≤ limit)
backoff_mono j k base limit h =
    let steps : base * 2 ^ min (j - 1) 16 ≤ base * 2 ^ min (k - 1) 16 =
      mul-le-mul_left base (pow2_mono (min (j - 1) 16) (min (k - 1) 16) (omega arith)) in
    (
      omega (arith, backoff_lem j base limit, backoff_lem k base limit),
      omega (arith, backoff_lem k base limit),
    )
