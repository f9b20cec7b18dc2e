-- ===== src/Executor/Scheduler/Ready/Filing.antt =====
-- Scheduling keeps the tasks under their own ids.
use contexide.Prelude.{ℕ, ◌≡◌, Option, List, [], ◌∷◌, arith}
use contexide.Storage.Workflows.{Task}
use contexide.Storage.Workflows.Mem.Tasks
use contexide.Executor.Store.{Store}
use contexide.Executor.Store.Filed.{IsFiled, save-IsFiled}
use contexide.Executor.Scheduler.Ready.{
  Pump, mark_dag_running, dispatch, schedule_task, schedule_tasks, schedule_ready_tasks,
}
use contexide.Executor.Scheduler.Ready.Upstream.{running}

module _ {Value : Type 0} (uuid : ℕ → ℕ) where
  pub tasks_of-dispatch :
      (store : Store Value) (task : Task Value)
      → (dispatch uuid store task).tasks ≡ Tasks.save store.tasks (running task)
  unfolding dispatch mark_dag_running
  tasks_of-dispatch store task = ground arith

  schedule_task-IsFiled :
      (p : Pump Value) (task : Task Value)
      → IsFiled p.store.tasks
      → IsFiled (schedule_task uuid p task).store.tasks
  unfolding schedule_task
  schedule_task-IsFiled p task filed =
      let filed' : IsFiled (dispatch uuid p.store task).tasks =
        rw (tasks_of-dispatch p.store task) (save-IsFiled p.store.tasks (running task) filed) in
      ground arith

  schedule_tasks-IsFiled :
      (p : Pump Value) (tasks : List (Task Value))
      → IsFiled p.store.tasks
      → IsFiled (schedule_tasks uuid p tasks).store.tasks
  unfolding schedule_tasks
  schedule_tasks-IsFiled p [] filed = filed
  schedule_tasks-IsFiled p (task ∷ tasks) filed =
      schedule_tasks-IsFiled (schedule_task uuid p task) tasks (schedule_task-IsFiled p task filed)

  pub schedule_ready_tasks-IsFiled :
      (max_batch : Option ℕ) (store : Store Value)
      → IsFiled store.tasks
      → IsFiled (schedule_ready_tasks uuid max_batch store).1.tasks
  unfolding schedule_ready_tasks
  schedule_ready_tasks-IsFiled max_batch store filed =
      schedule_tasks-IsFiled _ (Tasks.list_pending store.tasks max_batch) filed
