-- ===== src/Workflow/State/DagRunStatus.antt =====
-- `DagRunStatus` of crates/contexide-core/src/workflow/state.rs: a pipeline execution as a whole.
use contexide.Prelude.{
  String, ◌≡◌, ◌⊎◌, refl, Bool, true, false, ◌==◌, ==_iff, string_eq, if◌then◌else◌, arith,
}

pub data DagRunStatus : Type 0 where
  created running success failed cancelled partial_failed : DagRunStatus

-- `From<&str>`: an unknown name falls back to `created`.
unfoldable pub from_str : String → DagRunStatus
from_str name =
    if name == "created"
    then created
    else if name == "running"
    then running
    else if name == "success"
    then success
    else if name == "failed"
    then failed
    else if name == "cancelled"
    then cancelled
    else if name == "partial_failed"
    then partial_failed
    else created

-- `From<DagRunStatus> for &'static str`.
unfoldable pub as_str : DagRunStatus → String
as_str created = "created"
as_str running = "running"
as_str success = "success"
as_str failed = "failed"
as_str cancelled = "cancelled"
as_str partial_failed = "partial_failed"

unfoldable pub is_terminal : DagRunStatus → Bool
is_terminal success = true
is_terminal failed = true
is_terminal cancelled = true
is_terminal partial_failed = true
is_terminal _ = false

unfoldable pub is_success : DagRunStatus → Bool
is_success success = true
is_success _ = false

-- A status is read back from its name; any other name is read as `created`.
pub from_str-as_str : (s : DagRunStatus) → from_str (as_str s) ≡ s
unfolding from_str as_str
from_str-as_str created = refl
from_str-as_str running = refl
from_str-as_str success = refl
from_str-as_str failed = refl
from_str-as_str cancelled = refl
from_str-as_str partial_failed = refl

pub as_str-from_str : (name : String) → (as_str (from_str name) ≡ name) ⊎ (from_str name ≡ created)
unfolding from_str as_str
as_str-from_str name = ground (
  arith,
  ==_iff name "created",
  ==_iff name "running",
  ==_iff name "success",
  ==_iff name "failed",
  ==_iff name "cancelled",
  ==_iff name "partial_failed",
)
