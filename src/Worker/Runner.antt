-- ===== src/Worker/Runner.antt =====
-- crates/contexide-worker-runtime/src/runner.rs, with `ack` and `nack` of
-- crates/contexide-messaging-nats/src/jetstream.rs. A message is its bytes. What the crates
-- serde_json and async_nats and a handler answer in a call is a parameter of the call, `Env`. The
-- loop is a relation: which branch of `select!` is taken, when a task ends and when the grace period
-- is over is left open.
pub mod Settled
pub mod Permits
pub mod Shutdown
use contexide.Prelude.{ℕ, suc, ◌+◌, ◌≡◌, String, List, [], ◌∷◌, ◌++◌, Result, ok, err, length}
use contexide.Executor.Messaging.{WorkerRequest, MsgWorkerStatus}

pub record Env (Value Bytes : Type 0) : Type 0 where
  pub decode : Bytes → Result String (WorkerRequest Value)
  pub handle : WorkerRequest Value → Result String (MsgWorkerStatus Value)
  pub encode : MsgWorkerStatus Value → Result String Bytes
  pub publish : String → Bytes → Result String Unit

-- What a task does to the outside.
pub data Action (Bytes : Type 0) : Type 0 where
  published : String → Bytes → Action Bytes
  acked : Action Bytes
  nacked : Action Bytes

-- A fallible call with the actions that it has done.
abbrev pub Traced : Type 0 → Type 0 → Type 0
Traced Bytes A = List (Action Bytes) × Result String A

module _ {Bytes : Type 0} where
  abbrev pub done : {A : Type 0} → Result String A → Traced Bytes A
  done r = ([], r)

  infixl 5 ◌>>=ᵗ◌
  abbrev pub ◌>>=ᵗ◌ : {A B : Type 0} → Traced Bytes A → (A → Traced Bytes B) → Traced Bytes B
  (actions, ok a) >>=ᵗ next = let (more, r) = next a in (actions ++ more, r)
  (actions, err e) >>=ᵗ next = (actions, err e)

  abbrev pub ack : Traced Bytes Unit
  ack = (acked ∷ [], ok tt)

  abbrev pub nack : Traced Bytes Unit
  nack = (nacked ∷ [], ok tt)

  -- `match result { Ok(_) => Ok(()), Err(e) => { msg.nack().await?; Ok(()) } }`
  abbrev pub or_nack : Traced Bytes Unit → Traced Bytes Unit
  or_nack (actions, ok u) = (actions, ok tt)
  or_nack (actions, err e) = (actions, ok tt) >>=ᵗ λ _. nack

module _ {Value Bytes : Type 0} (env : Env Value Bytes) (subject_done : String) where
  abbrev pub publish : Bytes → Traced Bytes Unit
  publish payload = elim (env.publish subject_done payload) [
    | ok u ↦ (published subject_done payload ∷ [], ok tt)
    | err e ↦ ([], err e)
  ]

  -- The block `result`.
  unfoldable pub answer : WorkerRequest Value → Traced Bytes Unit
  answer parsed = done (env.handle parsed) >>=ᵗ λ status.
      done (env.encode status) >>=ᵗ λ payload. publish payload >>=ᵗ λ _. ack

  unfoldable pub handle_one : Bytes → Traced Bytes Unit
  handle_one raw = elim (env.decode raw) [ ok parsed ↦ or_nack (answer parsed) | err e ↦ nack ]

-- Where `run` is: before `select!`, with a message and waiting for a permit, waiting for the tasks
-- after the loop, or returned.
pub data Phase (Bytes : Type 0) : Type 0 where
  pulling : Phase Bytes
  holding : Bytes → Phase Bytes
  stopping : Phase Bytes
  stopped : Phase Bytes

-- The variables of `run`, and what has become of the messages.
pub record Runner (Bytes : Type 0) : Type 0 where
  pub phase : Phase Bytes
  pub permits : ℕ
  pub tasks : List Bytes
  pub received : List Bytes
  pub settled : List (Bytes × List (Action Bytes))
  pub crashed : List Bytes
  pub aborted : List Bytes

abbrev pub started : {Bytes : Type 0} → ℕ → Runner Bytes
started max_concurrency = record {
  phase = Phase.pulling;
  permits = max_concurrency;
  tasks = [];
  received = [];
  settled = [];
  crashed = [];
  aborted = [];
}

module _ (Value Bytes : Type 0) (subject_done : String) where
  -- `shut` is the signal or the end of the subscription. A task gives its permit back when it ends,
  -- by a panic too; the tasks that are left when `run` returns are aborted with its `JoinSet`. The
  -- semaphore is never closed, so that waiting for a permit does not fail.
  pub data Step (w : Runner Bytes) : Runner Bytes → Type 0 where
    shut : w.phase ≡ Phase.pulling → Step w (record w { phase = Phase.stopping })
    skip : w.phase ≡ Phase.pulling → Step w w
    receive :
        (raw : Bytes)
        → w.phase ≡ Phase.pulling
        → Step w (record w { phase = Phase.holding raw; received = raw ∷ w.received })
    spawn :
        (raw : Bytes) (permits : ℕ)
        → w.phase ≡ Phase.holding raw
        → w.permits ≡ suc permits
        → Step w (record w { phase = Phase.pulling; permits = permits; tasks = raw ∷ w.tasks })
    finish :
        (env : Env Value Bytes) (before : List Bytes) (raw : Bytes) (after : List Bytes)
        → w.tasks ≡ before ++ raw ∷ after
        → Step w (record w {
          permits = w.permits + 1;
          tasks = before ++ after;
          settled = (raw, (handle_one env subject_done raw).0) ∷ w.settled;
        })
    crash :
        (before : List Bytes) (raw : Bytes) (after : List Bytes)
        → w.tasks ≡ before ++ raw ∷ after
        → Step w (record w {
          permits = w.permits + 1;
          tasks = before ++ after;
          crashed = raw ∷ w.crashed;
        })
    drain : w.phase ≡ Phase.stopping → w.tasks ≡ [] → Step w (record w { phase = Phase.stopped })
    expire :
        w.phase ≡ Phase.stopping
        → Step w (record w {
          phase = Phase.stopped;
          permits = w.permits + length w.tasks;
          tasks = [];
          aborted = w.tasks ++ w.aborted;
        })

  pub data Reach (w : Runner Bytes) : Runner Bytes → Type 0 where
    here : Reach w w
    later : {u v : Runner Bytes} → Reach w u → Step u v → Reach w v
