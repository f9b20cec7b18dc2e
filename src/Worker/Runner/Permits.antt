-- ===== src/Worker/Runner/Permits.antt =====
-- The semaphore and the messages of the runner, over all its steps.
use contexide.Prelude.{
  ℕ, ◌+◌, ◌≤◌, ◌≡◌, ap, String, Bool, List, [], ◌∷◌, ◌++◌, length, length-append, arith,
  if◌then◌else◌,
}
use contexide.Worker.Runner.{
  Phase, pulling, holding, stopping, stopped, Runner, started, Step, shut, skip, receive, spawn,
  finish, crash, drain, expire, Reach, here, later,
}

-- How many messages of a list pass a test.
abbrev pub count_by : {A : Type 0} → (A → Bool) → List A → ℕ
count_by p [] = 0
count_by p (x ∷ xs) = (if p x then 1 else 0) + count_by p xs

pub count_by-append :
    {A : Type 0} (p : A → Bool) (xs ys : List A)
    → count_by p (xs ++ ys) ≡ count_by p xs + count_by p ys
count_by-append p [] ys = omega arith
count_by-append p (x ∷ xs) ys = omega (arith, count_by-append p xs ys)

abbrev pub held : {Bytes : Type 0} → Phase Bytes → List Bytes
held (holding raw) = raw ∷ []
held pulling = []
held stopping = []
held stopped = []

module _ (Value Bytes : Type 0) (subject_done : String) where
  -- Each permit is in the semaphore or with a task.
  abbrev pub IsBounded : ℕ → Runner Bytes → Type 0
  IsBounded max_concurrency w = w.permits + length w.tasks ≡ max_concurrency

  Step-IsBounded :
      (max_concurrency : ℕ) {w u : Runner Bytes}
      → Step Value Bytes subject_done w u
      → IsBounded max_concurrency w
      → IsBounded max_concurrency u
  Step-IsBounded n (shut h) b = b
  Step-IsBounded n (skip h) b = b
  Step-IsBounded n (receive raw h) b = b
  Step-IsBounded n (spawn raw k h e) b = omega (arith, e, b)
  Step-IsBounded n (finish env before raw after e) b =
      omega (arith, b, ap length e, length-append before (raw ∷ after), length-append before after)
  Step-IsBounded n (crash before raw after e) b =
      omega (arith, b, ap length e, length-append before (raw ∷ after), length-append before after)
  Step-IsBounded n (drain h e) b = b
  Step-IsBounded n (expire h) b = omega (arith, b)

  pub Reach-IsBounded :
      (max_concurrency : ℕ) {w : Runner Bytes}
      → Reach Value Bytes subject_done (started max_concurrency) w
      → IsBounded max_concurrency w
  Reach-IsBounded n here = omega arith
  Reach-IsBounded n (later r s) = Step-IsBounded n s (Reach-IsBounded n r)

  -- Where the messages are that pass a test.
  abbrev pub whereabouts : (Bytes → Bool) → Runner Bytes → ℕ
  whereabouts p w =
      count_by p (held w.phase)
      + count_by p w.tasks
      + count_by (λ s. p s.0) w.settled
      + count_by p w.crashed
      + count_by p w.aborted

  abbrev pub IsAccounted : (Bytes → Bool) → Runner Bytes → Type 0
  IsAccounted p w = count_by p w.received ≡ whereabouts p w

  moved :
      (p : Bytes → Bool) (before : List Bytes) (raw : Bytes) (after tasks : List Bytes)
      → tasks ≡ before ++ raw ∷ after
      → count_by p tasks ≡ count_by p (before ++ after) + (if p raw then 1 else 0)
  moved p before raw after tasks e = omega (
    arith,
    ap (count_by p) e,
    count_by-append p before (raw ∷ after),
    count_by-append p before after,
  )

  Step-IsAccounted :
      (p : Bytes → Bool) {w u : Runner Bytes}
      → Step Value Bytes subject_done w u
      → IsAccounted p w
      → IsAccounted p u
  Step-IsAccounted p {w} (shut h) a = omega (arith, a, ap (λ f. count_by p (held f)) h)
  Step-IsAccounted p (skip h) a = a
  Step-IsAccounted p {w} (receive raw h) a = omega (arith, a, ap (λ f. count_by p (held f)) h)
  Step-IsAccounted p {w} (spawn raw k h e) a = omega (arith, a, ap (λ f. count_by p (held f)) h)
  Step-IsAccounted p {w} (finish env before raw after e) a =
      omega (arith, a, moved p before raw after w.tasks e)
  Step-IsAccounted p {w} (crash before raw after e) a =
      omega (arith, a, moved p before raw after w.tasks e)
  Step-IsAccounted p {w} (drain h e) a = omega (arith, a, ap (λ f. count_by p (held f)) h)
  Step-IsAccounted p {w} (expire h) a =
      omega (arith, a, ap (λ f. count_by p (held f)) h, count_by-append p w.tasks w.aborted)

  -- However the runner goes on from its start, each message that it received is in one place: it
  -- waits for its permit, is with a task, or was settled, or its task crashed or was aborted. So no
  -- message is lost or handled twice.
  pub Reach-IsAccounted :
      (max_concurrency : ℕ) (p : Bytes → Bool) {w : Runner Bytes}
      → Reach Value Bytes subject_done (started max_concurrency) w
      → IsAccounted p w
  Reach-IsAccounted n p here = omega arith
  Reach-IsAccounted n p (later r s) = Step-IsAccounted p s (Reach-IsAccounted n p r)

  -- However the runner goes on from its start, at most `max_concurrency` tasks are in flight.
  pub Reach-tasks_le :
      (max_concurrency : ℕ) {w : Runner Bytes}
      → Reach Value Bytes subject_done (started max_concurrency) w
      → length w.tasks ≤ max_concurrency
  Reach-tasks_le n r = omega (arith, Reach-IsBounded n r)
