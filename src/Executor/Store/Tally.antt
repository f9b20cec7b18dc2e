-- ===== src/Executor/Store/Tally.antt =====
-- How many attempts of a task are stored.
use contexide.Prelude.{
  ℕ, ◌+◌, ◌≡◌, refl, sym, ap, ◌∙◌, inl, inr, Bool, true, false, none, some, [], ◌∷◌, nat_eq, ◌==◌,
  arith, Bool-cases, length, length-sort_by, filter,
}
use contexide.HashMap
use contexide.HashMap.{HashMap, values}
use contexide.Storage.Workflows.{TaskRun}
use contexide.Storage.Workflows.Mem.TaskRuns

abbrev pub one_if : Bool → ℕ
one_if true = 1
one_if false = 0

abbrev pub tally : ℕ → HashMap ℕ TaskRun → ℕ
tally task_id [] = 0
tally task_id ((k, run) ∷ m) = one_if (run.task_id == task_id) + tally task_id m

pub length-list_by_task :
    (runs : HashMap ℕ TaskRun) (task_id : ℕ)
    → length (TaskRuns.list_by_task runs task_id) ≡ tally task_id runs
unfolding TaskRuns.list_by_task
length-list_by_task runs task_id = length-sort_by _ _ ∙ counted runs
  where
    counted :
        (m : HashMap ℕ TaskRun)
        → length (filter (λ (tr : TaskRun). tr.task_id == task_id) (values m)) ≡ tally task_id m
    counted [] = refl
    counted ((k, run) ∷ m) = ground (arith, counted m)

pub tally-insert_new :
    (id task_id : ℕ) (run : TaskRun) (m : HashMap ℕ TaskRun)
    → HashMap.get id m ≡ none
    → tally task_id (HashMap.insert id run m) ≡ tally task_id m + one_if (run.task_id == task_id)
unfolding HashMap.get HashMap.insert
tally-insert_new id task_id run [] absent = omega arith
tally-insert_new id task_id run ((j, old) ∷ m) absent =
    ground (arith, tally-insert_new id task_id run m)

pub tally-insert_same :
    (id task_id : ℕ) (run old : TaskRun) (m : HashMap ℕ TaskRun)
    → HashMap.get id m ≡ some old
    → old.task_id ≡ run.task_id
    → tally task_id (HashMap.insert id run m) ≡ tally task_id m
unfolding HashMap.get HashMap.insert
tally-insert_same id task_id run old [] found same = absurd cc
tally-insert_same id task_id run old ((j, w) ∷ m) found same = elim (Bool-cases (j == id)) [
  | inl here ↦
      let e : w ≡ old = ground arith in
      let e' : w.task_id ≡ run.task_id = ap (λ r. r.task_id) e ∙ same in
      rw here (ap (λ i. one_if (i == task_id) + tally task_id m) (sym e'))
  | inr other ↦
      let rest = tally-insert_same id task_id run old m (ground arith) same in
      rw other (ap (λ n. one_if (w.task_id == task_id) + n) rest)
]
