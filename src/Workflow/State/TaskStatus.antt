-- ===== src/Workflow/State/TaskStatus.antt =====
-- `TaskStatus` of crates/contexide-core/src/workflow/state.rs: a logical task of a run.
use contexide.Prelude.{
  String, ◌≡◌, ◌⊎◌, refl, Bool, true, false, ◌==◌, ==_iff, string_eq, if◌then◌else◌, arith,
}

pub data TaskStatus : Type 0 where
  pending ready running success failed skipped : TaskStatus

-- `From<&str>`: an unknown name falls back to `pending`.
unfoldable pub from_str : String → TaskStatus
from_str name =
    if name == "pending"
    then pending
    else if name == "ready"
    then ready
    else if name == "running"
    then running
    else if name == "success"
    then success
    else if name == "failed"
    then failed
    else if name == "skipped"
    then skipped
    else pending

-- `From<TaskStatus> for &'static str`.
unfoldable pub as_str : TaskStatus → String
as_str pending = "pending"
as_str ready = "ready"
as_str running = "running"
as_str success = "success"
as_str failed = "failed"
as_str skipped = "skipped"

unfoldable pub is_terminal : TaskStatus → Bool
is_terminal success = true
is_terminal failed = true
is_terminal skipped = true
is_terminal _ = false

unfoldable pub is_success : TaskStatus → Bool
is_success success = true
is_success _ = false

unfoldable pub is_schedulable : TaskStatus → Bool
is_schedulable ready = true
is_schedulable _ = false

-- A status is read back from its name; any other name is read as `pending`.
pub from_str-as_str : (s : TaskStatus) → from_str (as_str s) ≡ s
unfolding from_str as_str
from_str-as_str pending = refl
from_str-as_str ready = refl
from_str-as_str running = refl
from_str-as_str success = refl
from_str-as_str failed = refl
from_str-as_str skipped = refl

pub as_str-from_str : (name : String) → (as_str (from_str name) ≡ name) ⊎ (from_str name ≡ pending)
unfolding from_str as_str
as_str-from_str name = ground (
  arith,
  ==_iff name "pending",
  ==_iff name "ready",
  ==_iff name "running",
  ==_iff name "success",
  ==_iff name "failed",
  ==_iff name "skipped",
)
