-- ===== src/Workflow/State/Names.antt =====
-- The names of the states in the store.
use contexide.Prelude.{String, ◌≡◌, ◌⊎◌}
use contexide.Workflow.State.DagRunStatus
use contexide.Workflow.State.DagRunStatus.{DagRunStatus}
use contexide.Workflow.State.TaskStatus
use contexide.Workflow.State.TaskStatus.{TaskStatus}
use contexide.Workflow.State.TaskRunStatus
use contexide.Workflow.State.TaskRunStatus.{TaskRunStatus}

-- Each state is read back from its own name.
pub states-roundtrip :
    (d : DagRunStatus) (t : TaskStatus) (r : TaskRunStatus)
    → (DagRunStatus.from_str (DagRunStatus.as_str d) ≡ d)
      × (TaskStatus.from_str (TaskStatus.as_str t) ≡ t)
      × (TaskRunStatus.from_str (TaskRunStatus.as_str r) ≡ r)
states-roundtrip d t r =
    (DagRunStatus.from_str-as_str d, TaskStatus.from_str-as_str t, TaskRunStatus.from_str-as_str r)

-- Every name is that of the state that is read from it, but for those that are read as the default:
-- `created`, or `pending` for a task.
pub names-roundtrip :
    (name : String)
    → ((DagRunStatus.as_str (DagRunStatus.from_str name) ≡ name)
        ⊎ (DagRunStatus.from_str name ≡ DagRunStatus.created))
      × ((TaskStatus.as_str (TaskStatus.from_str name) ≡ name)
          ⊎ (TaskStatus.from_str name ≡ TaskStatus.pending))
      × ((TaskRunStatus.as_str (TaskRunStatus.from_str name) ≡ name)
          ⊎ (TaskRunStatus.from_str name ≡ TaskRunStatus.created))
names-roundtrip name = (
  DagRunStatus.as_str-from_str name,
  TaskStatus.as_str-from_str name,
  TaskRunStatus.as_str-from_str name,
)
