-- ===== src/Executor/Runtime/Bounded.antt =====
-- What keeps the attempts of each task within the retry policy.
pub mod Planned
pub mod Reported
pub mod Batch
pub mod Polled
use contexide.Prelude.{
  ℕ, ◌+◌, ◌≤◌, ◌<◌, ◌≡◌, ◌≢◌, inl, inr, Bool, true, false, some, List, [], ◌∷◌, nat_eq, ◌==◌,
  ==_iff, arith, eqb, if◌then◌else◌, Bool-cases,
}
use contexide.HashMap.{HashMap, get-insert}
use contexide.Storage.Workflows.{Task, TaskRun}
use contexide.Storage.Workflows.Mem.Tasks
use contexide.Executor.Domain.{RetryPolicy}
use contexide.Executor.Scheduler.Ready.{is_waiting}
use contexide.Executor.Store.{Store, save_all}
use contexide.Executor.Store.Filed.{IsFiled}
use contexide.Executor.Store.Tally.{tally}
use contexide.Executor.Runtime.Final.{IsOwned, IsFresh}

-- The attempts that a task gets: the first is made whatever the policy says.
abbrev pub limit_of : RetryPolicy → ℕ
limit_of policy = if eqb policy.max_attempts 0 then 1 else policy.max_attempts

pub limit_pos : (policy : RetryPolicy) → 0 < limit_of policy
limit_pos policy = ground arith

module _ (uuid : ℕ → ℕ) where
  -- The id is none of those that are still to be made.
  abbrev pub IsOld : ℕ → ℕ → Type 0
  IsOld issued id = (n : ℕ) → issued ≤ n → id ≢ uuid n

  pub IsOld-mono : (a b id : ℕ) → a ≤ b → IsOld a id → IsOld b id
  IsOld-mono a b id le old n h = old n (omega arith)

  pub IsOld-made : IsFresh uuid → (made last : ℕ) → made < last → IsOld last (uuid made)
  IsOld-made fresh made last lt n h e = let same = fresh made n e in absurd (omega arith)

  -- No attempt is of a task whose id is still to be made.
  abbrev pub IsUnused : ℕ → HashMap ℕ TaskRun → Type 0
  IsUnused issued runs = (n : ℕ) → issued ≤ n → tally (uuid n) runs ≡ 0

module _ {Value : Type 0} (uuid : ℕ → ℕ) (limit : ℕ) where
  abbrev pub Allowed : ℕ → HashMap ℕ TaskRun → Task Value → Type 0
  Allowed issued runs t =
      (is_waiting t.status ≡ true → tally t.id runs < limit) × IsOld uuid issued t.id

  abbrev pub AllAllowed : ℕ → HashMap ℕ TaskRun → HashMap ℕ (Task Value) → Type 0
  AllAllowed issued runs tasks =
      (k : ℕ) (t : Task Value) → Tasks.get tasks k ≡ some t → Allowed issued runs t

  abbrev pub ListAllowed : ℕ → HashMap ℕ TaskRun → List (Task Value) → Type 0
  ListAllowed issued runs [] = Unit
  ListAllowed issued runs (t ∷ ts) = Allowed issued runs t × ListAllowed issued runs ts

  pub save-AllAllowed :
      (issued : ℕ) (runs : HashMap ℕ TaskRun) (tasks : HashMap ℕ (Task Value)) (new : Task Value)
      → AllAllowed issued runs tasks
      → Allowed issued runs new
      → AllAllowed issued runs (Tasks.save tasks new)
  save-AllAllowed issued runs tasks new all one k t found = elim (Bool-cases (new.id == k)) [
    | inl here ↦ let e : new ≡ t = ground (arith, get-insert new.id k new tasks) in rw (← e) one
    | inr other ↦ all k t (ground (arith, get-insert new.id k new tasks))
  ]

  pub save_all-AllAllowed :
      (issued : ℕ) (runs : HashMap ℕ TaskRun) (store : Store Value) (new : List (Task Value))
      → AllAllowed issued runs store.tasks
      → ListAllowed issued runs new
      → AllAllowed issued runs (save_all store new).tasks
  unfolding save_all
  save_all-AllAllowed issued runs store [] all each = all
  save_all-AllAllowed issued runs store (t ∷ ts) all (one, each) =
      save_all-AllAllowed issued runs (record store { tasks = Tasks.save store.tasks t }) ts
        (save-AllAllowed issued runs store.tasks t all one) each

  pub AllAllowed-mono :
      (a b : ℕ) (runs : HashMap ℕ TaskRun) (tasks : HashMap ℕ (Task Value))
      → a ≤ b
      → AllAllowed a runs tasks
      → AllAllowed b runs tasks
  AllAllowed-mono a b runs tasks le all k t found =
      let (waits, old) = all k t found in (waits, IsOld-mono uuid a b t.id le old)

  pub record IsBounded (store : Store Value) : Type 0 where
    pub owned : IsOwned uuid store
    pub filed : IsFiled store.tasks
    pub within : (task_id : ℕ) → tally task_id store.task_runs ≤ limit
    pub unused : IsUnused uuid store.issued store.task_runs
    pub allowed : AllAllowed store.issued store.task_runs store.tasks
