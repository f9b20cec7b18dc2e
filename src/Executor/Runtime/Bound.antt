-- ===== src/Executor/Runtime/Bound.antt =====
-- How often a task is tried, over all orders of events.
use contexide.Prelude.{
  ℕ, ◌≤◌, ◌<◌, ◌^◌, refl, List, [], ◌∷◌, arith, length, eqb, if◌then◌else◌, nat_eq,
}
use contexide.HashMap
use contexide.Storage.Workflows.Mem.TaskRuns
use contexide.Executor.Domain.{RetryPolicy}
use contexide.Executor.Json.{Json}
use contexide.Executor.Messaging.{pump_requests, on_message, status_of}
use contexide.Executor.Store.{Store}
use contexide.Executor.Store.Tally.{length-list_by_task}
use contexide.Executor.Runtime.{Event, planned, polled, reported, step, run}
use contexide.Executor.Runtime.Final.{IsFresh, step-IsOwned}
use contexide.Executor.Runtime.Filing.{step-IsFiled}
use contexide.Executor.Runtime.Bounded.{IsBounded, limit_of, limit_pos}
use contexide.Executor.Runtime.Bounded.Planned.{create_dag_run-IsBounded}
use contexide.Executor.Runtime.Bounded.Polled.{schedule_ready_tasks-IsBounded}
use contexide.Executor.Runtime.Bounded.Reported.{handle_worker_status-IsBounded}

abbrev pub empty_store : {Value : Type 0} → Store Value
empty_store = record { dag_runs = []; tasks = []; task_runs = []; issued = 0 }

module _ (json : Json) (uuid : ℕ → ℕ) (policy : RetryPolicy) where
  open json use {Value}

  empty-IsBounded : IsBounded {Value = Value} uuid (limit_of policy) empty_store
  unfolding HashMap.get
  empty-IsBounded = record {
    owned = (λ k run found. absurd cc, λ n h. refl);
    filed = tt;
    within = λ t. omega arith;
    unused = λ n h. refl;
    allowed = λ k t found. absurd cc;
  }

  module _ (fresh : IsFresh uuid) (small : policy.max_attempts < 2 ^ 32) where
    step-IsBounded :
        (store : Store Value) (e : Event Value)
        → IsBounded uuid (limit_of policy) store
        → IsBounded uuid (limit_of policy) (step json uuid policy store e)
    unfolding step pump_requests on_message
    step-IsBounded store (planned tenant_id profile input) bounded =
        let e : Event Value = planned tenant_id profile input in
        create_dag_run-IsBounded json uuid fresh (limit_of policy) (limit_pos policy) store
          tenant_id profile input bounded
          (step-IsOwned json uuid policy fresh store e bounded.owned).0
          (step-IsFiled json uuid policy store e bounded.filed)
    step-IsBounded store (polled max_batch) bounded =
        schedule_ready_tasks-IsBounded uuid fresh (limit_of policy) max_batch store bounded
    step-IsBounded store (reported done) bounded =
        handle_worker_status-IsBounded json uuid fresh policy small store (status_of done) bounded
          (step-IsOwned json uuid policy fresh store (reported done) bounded.owned).0
          (step-IsFiled json uuid policy store (reported done) bounded.filed)

    run-IsBounded :
        (store : Store Value) (events : List (Event Value))
        → IsBounded uuid (limit_of policy) store
        → IsBounded uuid (limit_of policy) (run json uuid policy store events)
    unfolding run
    run-IsBounded store [] bounded = bounded
    run-IsBounded store (e ∷ events) bounded =
        run-IsBounded (step json uuid policy store e) events (step-IsBounded store e bounded)

  -- Where no id is made twice and `max_attempts` is a `u32`: from an empty store on, in whatever order
  -- runs are planned, tasks are polled and workers report, no task ever has more attempts than the
  -- policy's `max_attempts`, or than one if that is zero.
  pub run-attempts_le :
      IsFresh uuid
      → policy.max_attempts < 2 ^ 32
      → (events : List (Event Value)) (task_id : ℕ)
      → length (TaskRuns.list_by_task (run json uuid policy empty_store events).task_runs task_id)
        ≤ (if eqb policy.max_attempts 0 then 1 else policy.max_attempts)
  run-attempts_le fresh small events task_id =
      let bounded = run-IsBounded fresh small empty_store events empty-IsBounded in
      let n = length-list_by_task (run json uuid policy empty_store events).task_runs task_id in
      omega (arith, n, bounded.within task_id)
