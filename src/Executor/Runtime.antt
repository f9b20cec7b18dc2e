-- ===== src/Executor/Runtime.antt =====
-- crates/contexide-workflow-executor/src/runtime.rs: `run` polls in one loop and listens in another.
-- The turns of the two, and the planner's calls, come in any order; each is taken as one step here.
pub mod Final
pub mod Filing
pub mod Bounded
pub mod Bound
use contexide.Prelude.{ℕ, String, Option, List, [], ◌∷◌}
use contexide.Executor.Domain.{RetryPolicy}
use contexide.Executor.Json.{Json}
use contexide.Executor.Store.{Store}
use contexide.Executor.Messaging.{MsgWorkerStatus, pump_requests, on_message}
use contexide.Executor.Planner.{create_dag_run}

pub data Event (Value : Type 0) : Type 0 where
  planned : ℕ → String → Value → Event Value
  polled : Option ℕ → Event Value
  reported : MsgWorkerStatus Value → Event Value

module _ (json : Json) (uuid : ℕ → ℕ) (policy : RetryPolicy) where
  open json use {Value}

  pub step : Store Value → Event Value → Store Value
  step store (planned tenant_id profile input) =
      (create_dag_run json uuid store tenant_id profile input).1
  step store (polled max_batch) = (pump_requests uuid max_batch store).1
  step store (reported done) = on_message json uuid policy store done

  pub run : Store Value → List (Event Value) → Store Value
  run store [] = store
  run store (e ∷ events) = run (step store e) events
