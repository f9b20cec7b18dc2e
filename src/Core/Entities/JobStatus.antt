-- ===== src/Core/Entities/JobStatus.antt =====
-- `JobStatus` of crates/contexide-core/src/storage/entities.rs with its names.
use contexide.Prelude.{
  ℕ, zero, suc, String, ◌≡◌, ◌↔◌, refl, true, Result, ok, err, string_eq, ◌==◌, if◌then◌else◌, eqb,
  Eq, coded_iff,
}

pub data JobStatus : Type 0 where
  pending running done failed : JobStatus

-- The places of the variants, by which the derived `==` is taken here.
abbrev pub code : JobStatus → ℕ
code pending = 0
code running = 1
code done = 2
code failed = 3

of_code : ℕ → JobStatus
of_code zero = pending
of_code (suc zero) = running
of_code (suc (suc zero)) = done
of_code _ = failed

of_code-code : (s : JobStatus) → of_code (code s) ≡ s
unfolding of_code
of_code-code pending = refl
of_code-code running = refl
of_code-code done = refl
of_code-code failed = refl

pub code_iff : (a b : JobStatus) → (eqb (code a) (code b) ≡ true) ↔ (a ≡ b)
code_iff = coded_iff code of_code of_code-code

instance abbrev pub status_eq : Eq JobStatus
status_eq = record { same = λ a b. eqb (code a) (code b); decides = code_iff }

-- `From<JobStatus> for &'static str`
pub name : JobStatus → String
name pending = "pending"
name running = "running"
name done = "done"
name failed = "failed"

-- `TryFrom<&str>`, whose error holds nothing.
pub try_from : String → Result (Unit {0}) JobStatus
try_from s =
    if s == "pending"
    then ok pending
    else if s == "running"
    then ok running
    else if s == "done"
    then ok done
    else if s == "failed"
    then ok failed
    else err tt
