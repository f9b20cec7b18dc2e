-- ===== src/Core/Entities/JobKind.antt =====
-- `JobKind` of crates/contexide-core/src/storage/entities.rs with its names.
use contexide.Prelude.{
  ℕ, zero, suc, String, ◌≡◌, ◌↔◌, refl, true, Result, ok, err, string_eq, ◌==◌, if◌then◌else◌, eqb,
  Eq, coded_iff,
}

pub data JobKind : Type 0 where
  ingest extract normalize chunk embed index : JobKind

-- The places of the variants, by which the derived `==` is taken here.
abbrev pub code : JobKind → ℕ
code ingest = 0
code extract = 1
code normalize = 2
code chunk = 3
code embed = 4
code index = 5

of_code : ℕ → JobKind
of_code zero = ingest
of_code (suc zero) = extract
of_code (suc (suc zero)) = normalize
of_code (suc (suc (suc zero))) = chunk
of_code (suc (suc (suc (suc zero)))) = embed
of_code _ = index

of_code-code : (k : JobKind) → of_code (code k) ≡ k
unfolding of_code
of_code-code ingest = refl
of_code-code extract = refl
of_code-code normalize = refl
of_code-code chunk = refl
of_code-code embed = refl
of_code-code index = refl

pub code_iff : (a b : JobKind) → (eqb (code a) (code b) ≡ true) ↔ (a ≡ b)
code_iff = coded_iff code of_code of_code-code

instance abbrev pub kind_eq : Eq JobKind
kind_eq = record { same = λ a b. eqb (code a) (code b); decides = code_iff }

-- `From<JobKind> for &'static str`
pub name : JobKind → String
name ingest = "ingest"
name extract = "extract"
name normalize = "normalize"
name chunk = "chunk"
name embed = "embed"
name index = "index"

-- `TryFrom<&str>`, whose error holds nothing.
pub try_from : String → Result (Unit {0}) JobKind
try_from s =
    if s == "ingest"
    then ok ingest
    else if s == "extract"
    then ok extract
    else if s == "normalize"
    then ok normalize
    else if s == "chunk"
    then ok chunk
    else if s == "embed"
    then ok embed
    else if s == "index"
    then ok index
    else err tt
