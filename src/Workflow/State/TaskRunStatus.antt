-- ===== src/Workflow/State/TaskRunStatus.antt =====
-- `TaskRunStatus` of crates/contexide-core/src/workflow/state.rs: one attempt at a task.
use contexide.Prelude.{
  String, ◌≡◌, ◌⊎◌, refl, Bool, true, false, ◌==◌, ==_iff, string_eq, if◌then◌else◌, arith,
}

pub data TaskRunStatus : Type 0 where
  created running success failed aborted : TaskRunStatus

-- `From<&str>`: an unknown name falls back to `created`.
unfoldable pub from_str : String → TaskRunStatus
from_str name =
    if name == "created"
    then created
    else if name == "running"
    then running
    else if name == "success"
    then success
    else if name == "failed"
    then failed
    else if name == "aborted"
    then aborted
    else created

-- `From<TaskRunStatus> for &'static str`.
unfoldable pub as_str : TaskRunStatus → String
as_str created = "created"
as_str running = "running"
as_str success = "success"
as_str failed = "failed"
as_str aborted = "aborted"

unfoldable pub is_terminal : TaskRunStatus → Bool
is_terminal success = true
is_terminal failed = true
is_terminal aborted = true
is_terminal _ = false

unfoldable pub is_success : TaskRunStatus → Bool
is_success success = true
is_success _ = false

-- A status is read back from its name; any other name is read as `created`.
pub from_str-as_str : (s : TaskRunStatus) → from_str (as_str s) ≡ s
unfolding from_str as_str
from_str-as_str created = refl
from_str-as_str running = refl
from_str-as_str success = refl
from_str-as_str failed = refl
from_str-as_str aborted = refl

pub as_str-from_str : (name : String) → (as_str (from_str name) ≡ name) ⊎ (from_str name ≡ created)
unfolding from_str as_str
as_str-from_str name = ground (
  arith,
  ==_iff name "created",
  ==_iff name "running",
  ==_iff name "success",
  ==_iff name "failed",
  ==_iff name "aborted",
)
