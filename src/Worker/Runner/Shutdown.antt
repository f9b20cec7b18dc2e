-- ===== src/Worker/Runner/Shutdown.antt =====
-- Where the runner can go on, and that it can be shut down.
use contexide.Prelude.{
  ℕ, zero, suc, ◌+◌, ◌<◌, ◌≡◌, ◌↔◌, ◌⊎◌, refl, sym, ap, ◌∙◌, inl, inr, String, List, [], ◌∷◌, ◌++◌,
  length, length-append, arith,
}
use contexide.Worker.Runner.{
  Env, Phase, pulling, holding, stopping, stopped, Runner, started, Step, shut, skip, receive,
  spawn, finish, crash, drain, expire, Reach, here, later,
}
use contexide.Worker.Runner.Permits.{IsBounded, Reach-IsBounded}

Phase-cases :
    {Bytes : Type 0} (f : Phase Bytes)
    → (f ≡ pulling) ⊎ ((raw : Bytes) × (f ≡ holding raw)) ⊎ (f ≡ stopping) ⊎ (f ≡ stopped)
Phase-cases pulling = inl refl
Phase-cases (holding raw) = inr (inl (raw, refl))
Phase-cases stopping = inr (inr (inl refl))
Phase-cases stopped = inr (inr (inr refl))

Nat-cases : (n : ℕ) → (n ≡ 0) ⊎ ((k : ℕ) × (n ≡ suc k))
Nat-cases zero = inl refl
Nat-cases (suc k) = inr (k, refl)

module _ (Value Bytes : Type 0) (subject_done : String) where
  -- No task is left once `run` has returned.
  abbrev IsQuiet : Runner Bytes → Type 0
  IsQuiet w = w.phase ≡ stopped → w.tasks ≡ []

  Step-IsQuiet : {w u : Runner Bytes} → Step Value Bytes subject_done w u → IsQuiet w → IsQuiet u
  Step-IsQuiet (shut h) q = λ at. absurd cc
  Step-IsQuiet (skip h) q = q
  Step-IsQuiet (receive raw h) q = λ at. absurd cc
  Step-IsQuiet (spawn raw k h e) q = λ at. absurd cc
  Step-IsQuiet (finish env [] raw after e) q = λ at. let gone = q at in absurd cc
  Step-IsQuiet (finish env (x ∷ before) raw after e) q = λ at. let gone = q at in absurd cc
  Step-IsQuiet (crash [] raw after e) q = λ at. let gone = q at in absurd cc
  Step-IsQuiet (crash (x ∷ before) raw after e) q = λ at. let gone = q at in absurd cc
  Step-IsQuiet (drain h e) q = λ at. e
  Step-IsQuiet (expire h) q = λ at. refl

  Reach-IsQuiet :
      (max_concurrency : ℕ) {w : Runner Bytes}
      → Reach Value Bytes subject_done (started max_concurrency) w
      → IsQuiet w
  Reach-IsQuiet n here = λ at. refl
  Reach-IsQuiet n (later r s) = Step-IsQuiet s (Reach-IsQuiet n r)

  Reach-join :
      {u v w : Runner Bytes}
      → Reach Value Bytes subject_done u v
      → Reach Value Bytes subject_done v w
      → Reach Value Bytes subject_done u w
  Reach-join r here = r
  Reach-join r (later s t) = later (Reach-join r s) t

  -- Returned, with no message lost on the way.
  abbrev pub IsShutdown : Runner Bytes → Runner Bytes → Type 0
  IsShutdown w u =
      (u.phase ≡ stopped)
      × (u.tasks ≡ [])
      × (u.received ≡ w.received)
      × (u.crashed ≡ w.crashed)
      × (u.aborted ≡ w.aborted)

  -- All tasks may end, one after the other.
  drained :
      (env : Env Value Bytes) (tasks : List Bytes) (w : Runner Bytes)
      → w.tasks ≡ tasks
      → w.phase ≡ stopping
      → (u : Runner Bytes) × Reach Value Bytes subject_done w u × IsShutdown w u
  drained env [] w e at = (_, later here (drain at e), (refl, e, refl, refl, refl))
  drained env (raw ∷ tasks) w e at =
      let s : Step Value Bytes subject_done w _ = finish env [] raw tasks e in
      let (u, r, done) = drained env tasks _ refl at in (u, Reach-join (later here s) r, done)

  from_pulling :
      (env : Env Value Bytes) (w : Runner Bytes)
      → w.phase ≡ pulling
      → (u : Runner Bytes) × Reach Value Bytes subject_done w u × IsShutdown w u
  from_pulling env w at =
      let s : Step Value Bytes subject_done w _ = shut at in
      let (u, r, done) = drained env w.tasks _ refl refl in (u, Reach-join (later here s) r, done)

  from_holding :
      (env : Env Value Bytes) (w : Runner Bytes) (raw : Bytes) (k : ℕ)
      → w.phase ≡ holding raw
      → w.permits ≡ suc k
      → (u : Runner Bytes) × Reach Value Bytes subject_done w u × IsShutdown w u
  from_holding env w raw k at free =
      let s : Step Value Bytes subject_done w _ = spawn raw k at free in
      let (u, r, done) = from_pulling env _ refl in (u, Reach-join (later here s) r, done)

  -- Where no permit is free, a task holds one, and gives it back when it ends.
  waited :
      (env : Env Value Bytes) (max_concurrency : ℕ) (tasks : List Bytes) (w : Runner Bytes)
      → (raw : Bytes) → 0 < max_concurrency
      → IsBounded Value Bytes subject_done max_concurrency w
      → w.phase ≡ holding raw
      → w.tasks ≡ tasks
      → w.permits ≡ 0
      → (u : Runner Bytes) × Reach Value Bytes subject_done w u × IsShutdown w u
  waited env n [] w raw some b at e none_free = absurd (omega (arith, b, ap length e))
  waited env n (task ∷ tasks) w raw some b at e none_free =
      let s : Step Value Bytes subject_done w _ = finish env [] task tasks e in
      let (u, r, done) = from_holding env _ raw 0 at (omega (arith, none_free)) in
      (u, Reach-join (later here s) r, done)

  -- If `max_concurrency` is not 0, then from every state that the runner gets to it can be shut down
  -- without a loss: there is a way to its return on which no task crashes or is aborted and no more
  -- messages come, so that each that it holds or has given to a task is settled.
  pub Reach-IsShutdown :
      (env : Env Value Bytes) (max_concurrency : ℕ) {w : Runner Bytes}
      → 0 < max_concurrency
      → Reach Value Bytes subject_done (started max_concurrency) w
      → (u : Runner Bytes) × Reach Value Bytes subject_done w u × IsShutdown w u
  Reach-IsShutdown env n {w} some r =
      let b = Reach-IsBounded Value Bytes subject_done n r in
      elim (Phase-cases w.phase) [
        | inl at ↦ from_pulling env w at
        | inr (inl (raw, at)) ↦ elim (Nat-cases w.permits) [
          | inl none_free ↦ waited env n w.tasks w raw some b at refl none_free
          | inr (k, free) ↦ from_holding env w raw k at free
        ]
        | inr (inr (inl at)) ↦ drained env w.tasks w refl at
        | inr (inr (inr at)) ↦ (w, here, (at, Reach-IsQuiet n r at, refl, refl, refl))
      ]

  -- No step is left from `w`.
  abbrev pub IsStuck : Runner Bytes → Type 0
  IsStuck w = (u : Runner Bytes) → ¬ Step Value Bytes subject_done w u

  task-not-nil :
      (before : List Bytes) (raw : Bytes) (after : List Bytes) → ¬ (before ++ raw ∷ after ≡ [])
  task-not-nil [] raw after e = cc
  task-not-nil (x ∷ before) raw after e = cc

  IsStuck-of_blocked :
      (w : Runner Bytes) (raw : Bytes)
      → w.phase ≡ holding raw
      → w.permits + length w.tasks ≡ 0
      → IsStuck w
  IsStuck-of_blocked w raw at b u (shut h) = let clash = sym at ∙ h in cc
  IsStuck-of_blocked w raw at b u (skip h) = let clash = sym at ∙ h in cc
  IsStuck-of_blocked w raw at b u (receive m h) = let clash = sym at ∙ h in cc
  IsStuck-of_blocked w raw at b u (spawn m k h e) = omega (arith, b, e)
  IsStuck-of_blocked w raw at b u (finish env before m after e) =
      omega (arith, b, ap length e, length-append before (m ∷ after))
  IsStuck-of_blocked w raw at b u (crash before m after e) =
      omega (arith, b, ap length e, length-append before (m ∷ after))
  IsStuck-of_blocked w raw at b u (drain h e) = let clash = sym at ∙ h in cc
  IsStuck-of_blocked w raw at b u (expire h) = let clash = sym at ∙ h in cc

  IsStuck-of_stopped : (w : Runner Bytes) → w.phase ≡ stopped → w.tasks ≡ [] → IsStuck w
  IsStuck-of_stopped w at gone u (shut h) = let clash = sym at ∙ h in cc
  IsStuck-of_stopped w at gone u (skip h) = let clash = sym at ∙ h in cc
  IsStuck-of_stopped w at gone u (receive m h) = let clash = sym at ∙ h in cc
  IsStuck-of_stopped w at gone u (spawn m k h e) = let clash = sym at ∙ h in cc
  IsStuck-of_stopped w at gone u (finish env before m after e) =
      task-not-nil before m after (sym e ∙ gone)
  IsStuck-of_stopped w at gone u (crash before m after e) =
      task-not-nil before m after (sym e ∙ gone)
  IsStuck-of_stopped w at gone u (drain h e) = let clash = sym at ∙ h in cc
  IsStuck-of_stopped w at gone u (expire h) = let clash = sym at ∙ h in cc

  blocked_of_stuck :
      (max_concurrency : ℕ) (w : Runner Bytes) (raw : Bytes) (permits : ℕ) (tasks : List Bytes)
      → w.phase ≡ holding raw
      → w.permits ≡ permits
      → w.tasks ≡ tasks
      → w.permits + length w.tasks ≡ max_concurrency
      → IsStuck w
      → max_concurrency ≡ 0
  blocked_of_stuck n w raw zero [] at free e b stuck = omega (arith, free, b, ap length e)
  blocked_of_stuck n w raw zero (m ∷ tasks) at free e b stuck =
      absurd (stuck _ (crash [] m tasks e))
  blocked_of_stuck n w raw (suc k) tasks at free e b stuck = absurd (stuck _ (spawn raw k at free))

  -- A runner that has got from its start to `w` cannot go on exactly if it has returned, or if
  -- `max_concurrency` is 0 and it holds a message; so the first message blocks a runner without
  -- permits for good, also for the signal to shut down.
  pub IsStuck-iff :
      (max_concurrency : ℕ) {w : Runner Bytes}
      → Reach Value Bytes subject_done (started max_concurrency) w
      → IsStuck w ↔ (
          (w.phase ≡ stopped) ⊎ ((max_concurrency ≡ 0) × ((raw : Bytes) × (w.phase ≡ holding raw))))
  IsStuck-iff n {w} r =
      let b = Reach-IsBounded Value Bytes subject_done n r in
      (
        λ stuck. elim (Phase-cases w.phase) [
          | inl at ↦ absurd (stuck _ (shut at))
          | inr (inl (raw, at)) ↦
              inr (blocked_of_stuck n w raw w.permits w.tasks at refl refl b stuck, (raw, at))
          | inr (inr (inl at)) ↦ absurd (stuck _ (expire at))
          | inr (inr (inr at)) ↦ inl at
        ],
        λ why. elim why [
          | inl at ↦ IsStuck-of_stopped w at (Reach-IsQuiet n r at)
          | inr (zero_permits, (raw, at)) ↦ IsStuck-of_blocked w raw at (b ∙ zero_permits)
        ],
      )
