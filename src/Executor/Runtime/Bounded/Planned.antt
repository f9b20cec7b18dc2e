-- ===== src/Executor/Runtime/Bounded/Planned.antt =====
-- Planning a run.
use contexide.Prelude.{ℕ, ◌+◌, ◌≤◌, ◌<◌, String, List, [], ◌∷◌, nat_eq, arith}
use contexide.HashMap.{HashMap}
use contexide.Storage.Workflows.{TaskRun}
use contexide.Storage.Workflows.Mem.DagRuns
use contexide.Executor.Json.{Json}
use contexide.Executor.Planner.{create_dag_run, make_tasks, profile_sequence, new_run}
use contexide.Executor.Planner.Attempts.{issued-make_tasks}
use contexide.Executor.Scheduler.Results.Attempts.{runs-save_all}
use contexide.Executor.Store.{Store}
use contexide.Executor.Runtime.Final.{IsFresh, IsOwned}
use contexide.Executor.Store.Filed.{IsFiled}
use contexide.Executor.Runtime.Bounded.{
  IsBounded, IsUnused, IsOld-made, ListAllowed, AllAllowed-mono, save_all-AllAllowed,
}

module _ (json : Json) (uuid : ℕ → ℕ) (fresh : IsFresh uuid) (limit : ℕ)
    (some_left : 0 < limit) where
  open json use {Value}

  make_tasks-ListAllowed :
      (runs : HashMap ℕ TaskRun) (issued d t : ℕ) (input : Value) (idx : ℕ) (kinds : List String)
      (last : ℕ)
      → IsUnused uuid issued runs
      → (make_tasks json uuid issued d t input idx kinds).1 ≤ last
      → ListAllowed uuid limit last runs (make_tasks json uuid issued d t input idx kinds).0
  unfolding make_tasks
  make_tasks-ListAllowed runs issued d t input idx [] last unused le = tt
  make_tasks-ListAllowed runs issued d t input idx (kind ∷ kinds) last unused le = (
    (
      λ _. omega (arith, unused issued (omega arith)),
      IsOld-made uuid fresh issued last
          (omega (arith, issued-make_tasks json uuid (issued + 1) d t input (idx + 1) kinds)),
    ),
    make_tasks-ListAllowed runs (issued + 1) d t input (idx + 1) kinds last
        (λ n h. unused n (omega arith)) le,
  )

  pub create_dag_run-IsBounded :
      (store : Store Value) (tenant_id : ℕ) (profile : String) (input : Value)
      → IsBounded uuid limit store
      → IsOwned uuid (create_dag_run json uuid store tenant_id profile input).1
      → IsFiled (create_dag_run json uuid store tenant_id profile input).1.tasks
      → IsBounded uuid limit (create_dag_run json uuid store tenant_id profile input).1
  unfolding create_dag_run
  create_dag_run-IsBounded store tenant_id profile input bounded owned filed =
      let id = uuid store.issued in
      let made =
        make_tasks json uuid (store.issued + 1) id tenant_id input 0 (profile_sequence profile) in
      let more =
        issued-make_tasks json uuid (store.issued + 1) id tenant_id input 0
          (profile_sequence profile) in
      let planned : Store Value = record store {
        dag_runs = DagRuns.save store.dag_runs (new_run json uuid id tenant_id profile input);
        issued = made.1;
      } in
      let (runs, kept) = runs-save_all planned made.0 in
      record {
        owned = owned;
        filed = filed;
        within = λ t. rw runs (bounded.within t);
        unused = λ n h. rw runs (bounded.unused n (omega (arith, kept, more)));
        allowed =
            rw (runs, kept)
              (save_all-AllAllowed uuid limit made.1 store.task_runs planned made.0
                (AllAllowed-mono uuid limit store.issued made.1 store.task_runs store.tasks
                  (omega (arith, more)) bounded.allowed)
                (make_tasks-ListAllowed store.task_runs (store.issued + 1) id tenant_id input 0
                  (profile_sequence profile) made.1 (λ n h. bounded.unused n (omega arith))
                  (omega arith)));
      }
