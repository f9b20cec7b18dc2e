-- ===== src/Workflow/Examples.antt =====
-- The theorems on states, runs, retries and limits at small values.
use contexide.Prelude.{◌≡◌, refl, true, some, List, [], ◌∷◌, pos}
use contexide.Workflow.State.DagRunStatus
use contexide.Workflow.State.TaskStatus
use contexide.Workflow.State.TaskRunStatus
use contexide.Workflow.Dag.{parse}
use contexide.Workflow.Run.{DagRun, Task, TaskRun}
use contexide.Workflow.Run.Lifecycle.{Mark, running, failed}
use contexide.Workflow.Retry.{RetryContext}
use contexide.Workflow.Limits.{LimitsView, UsageSnapshot}

abbrev marks : List Mark
marks = running ∷ failed "timeout" ∷ running ∷ []

abbrev third : RetryContext
third = record { attempt_no = 3; total_attempts = 3; transient_error = true }

abbrev ended : DagRun Unit
ended = record {
  id = 1;
  tenant_id = 2;
  dag_name = "sample";
  dag_version = pos 1;
  status = DagRunStatus.success;
  params = tt;
}

abbrev skipped : Task Unit
skipped = record {
  id = 3;
  dag_run_id = 1;
  node_key = "parse";
  kind = parse;
  status = TaskStatus.skipped;
  attempt_count = 0;
  params = tt;
}

abbrev given_up : TaskRun
given_up = record {
  id = 4;
  task_id = 3;
  attempt_no = 1;
  status = TaskRunStatus.aborted;
  error = some "stopped";
}

are_over :
    (DagRunStatus.is_terminal ended.status ≡ true)
    × (TaskStatus.is_terminal skipped.status ≡ true)
    × (TaskRunStatus.is_terminal given_up.status ≡ true)
unfolding DagRunStatus.is_terminal TaskStatus.is_terminal TaskRunStatus.is_terminal
are_over = (refl, refl, refl)

abbrev limits : LimitsView
limits = record {
  global = record { max_running_tasks_total = 10 };
  tenant = record { max_running_dag_runs = 2; max_running_tasks = 5 };
  domain = record { max_running_tasks_global = 8; max_running_tasks_per_tenant = 3 };
}

abbrev usage : UsageSnapshot
usage = record {
  running_tasks_total = 4;
  tenant_running_dag_runs = 1;
  tenant_running_tasks = 4;
  tenant_domain_running_tasks = 3;
  domain_running_tasks_global = 3;
}
