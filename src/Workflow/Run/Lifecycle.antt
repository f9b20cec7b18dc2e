-- ===== src/Workflow/Run/Lifecycle.antt =====
-- The marks of run.rs over time: what a list of marks does to an attempt, and what is final.
use contexide.Prelude.{ℕ, String, ◌≡◌, refl, Bool, true, false, List, [], ◌∷◌, arith, is_some}
use contexide.Workflow.State.DagRunStatus
use contexide.Workflow.State.TaskStatus
use contexide.Workflow.State.TaskRunStatus
use contexide.Workflow.State.TaskRunStatus.{TaskRunStatus}
use contexide.Workflow.Run.{
  DagRun, Task, TaskRun, mark_run_running, mark_ready, mark_ready_from, mark_running,
  mark_running_from, new_task_run, start_from, mark_attempt_running, mark_attempt_success,
  mark_attempt_failed, mark_attempt_aborted,
}

-- The calls that a client makes on an attempt.
pub data Mark : Type 0 where
  running success : Mark
  failed aborted : String → Mark

pub apply : TaskRun → Mark → TaskRun
apply run running = mark_attempt_running run
apply run success = mark_attempt_success run
apply run (failed msg) = mark_attempt_failed run msg
apply run (aborted msg) = mark_attempt_aborted run msg

pub marked : TaskRun → List Mark → TaskRun
marked run [] = run
marked run (mark ∷ marks) = marked (apply run mark) marks

abbrev pub is_failure : TaskRunStatus → Bool
is_failure TaskRunStatus.failed = true
is_failure TaskRunStatus.aborted = true
is_failure _ = false

-- An error text is there exactly if the attempt failed or was aborted, and the attempt is the same.
pub record IsExplained (start run : TaskRun) : Type 0 where
  pub explained : is_failure run.status ≡ is_some run.error
  pub same_id : run.id ≡ start.id
  pub same_task : run.task_id ≡ start.task_id
  pub same_no : run.attempt_no ≡ start.attempt_no

apply-IsExplained :
    (start run : TaskRun) (mark : Mark) → IsExplained start run → IsExplained start (apply run mark)
unfolding apply mark_attempt_running start_from mark_attempt_success mark_attempt_failed
    mark_attempt_aborted
apply-IsExplained start run running h = ground arith
apply-IsExplained start run _ h = ground arith

marked-IsExplained :
    (start run : TaskRun) (marks : List Mark)
    → IsExplained start run
    → IsExplained start (marked run marks)
unfolding marked
marked-IsExplained start run [] h = h
marked-IsExplained start run (mark ∷ marks) h =
    marked-IsExplained start (apply run mark) marks (apply-IsExplained start run mark h)

-- A new attempt that is then marked in any way, and in any order, keeps its identity, and has an
-- error text exactly if its status is failed or aborted.
pub new_task_run-IsExplained :
    (id task_id attempt_no : ℕ) (marks : List Mark)
    → IsExplained
        (new_task_run id task_id attempt_no)
        (marked (new_task_run id task_id attempt_no) marks)
unfolding new_task_run
new_task_run-IsExplained id task_id attempt_no marks =
    marked-IsExplained (new_task_run id task_id attempt_no) (new_task_run id task_id attempt_no)
      marks (record { explained = refl; same_id = refl; same_task = refl; same_no = refl })

-- A finished run, task or attempt is not restarted: the marks with a guard leave it as it is.
pub guarded_marks-final :
    {Value : Type 0} (run : DagRun Value) (task : Task Value) (attempt : TaskRun)
    → DagRunStatus.is_terminal run.status ≡ true
    → TaskStatus.is_terminal task.status ≡ true
    → TaskRunStatus.is_terminal attempt.status ≡ true
    → (mark_run_running run ≡ run)
      × (mark_ready task ≡ task)
      × (mark_running task ≡ task)
      × (mark_attempt_running attempt ≡ attempt)
unfolding mark_run_running mark_ready mark_ready_from mark_running mark_running_from
    mark_attempt_running start_from DagRunStatus.is_terminal TaskStatus.is_terminal
    TaskRunStatus.is_terminal
guarded_marks-final run task attempt a b c =
    (ground arith, ground arith, ground arith, ground arith)
