-- ===== src/Executor/Planner/Tasks.antt =====
-- The tasks of a new run.
use mathlib.Core.List.{append-nil, append_assoc}
use contexide.Prelude.{
  ℕ, ◌+◌, ◌≤◌, ◌≡◌, ◌≢◌, refl, sym, ap, ◌∙◌, inl, inr, String, Bool, false, none, List, [], ◌∷◌,
  ◌++◌, filter, nat_eq, ◌==◌, ==_iff, arith, Memᴰ, if◌then◌else◌, Bool-cases, eqb,
}
use contexide.HashMap
use contexide.HashMap.{HashMap, values}
use contexide.Storage.Workflows.{Task}
use contexide.Storage.Workflows.Mem.DagRuns
use contexide.Storage.Workflows.Mem.Tasks
use contexide.Executor.Json.{Json}
use contexide.Executor.Scheduler.Ready.{is_ready, upstream_done, ordering_for_kind}
use contexide.Executor.Store.{Store, save_all}
use contexide.Executor.Planner.{create_dag_run, make_tasks, profile_sequence, new_run, new_task}

module _ {Value : Type 0} where
  -- A task under a new id comes after all others.
  values-insert :
      (t : Task Value) (m : HashMap ℕ (Task Value))
      → HashMap.get t.id m ≡ none
      → values (HashMap.insert t.id t m) ≡ values m ++ t ∷ []
  unfolding HashMap.get HashMap.insert
  values-insert t [] h = refl
  values-insert t ((j, w) ∷ m) h = elim (Bool-cases (j == t.id)) [
    | inl same ↦ absurd (ground arith)
    | inr other ↦ rw other (ap (λ l. w ∷ l) (values-insert t m (ground arith)))
  ]

  filter-append :
      (p : Task Value → Bool) (xs ys : List (Task Value))
      → filter p (xs ++ ys) ≡ filter p xs ++ filter p ys
  filter-append p [] ys = refl
  filter-append p (x ∷ xs) ys = ground (arith, filter-append p xs ys)

  filter-eq-nil :
      (p : Task Value → Bool) (xs : List (Task Value))
      → ((x : Task Value) → Memᴰ x xs → p x ≡ false)
      → filter p xs ≡ []
  filter-eq-nil p [] h = refl
  filter-eq-nil p (x ∷ xs) h =
      rw (h x (Memᴰ.head refl)) (filter-eq-nil p xs (λ y m. h y (Memᴰ.tail m)))

module _ (json : Json) (uuid : ℕ → ℕ) where
  open json use {Value}

  apart : ((m n : ℕ) → uuid m ≡ uuid n → m ≡ n) → (i n : ℕ) → i + 1 ≤ n → (uuid i == uuid n) ≡ false
  apart fresh i n later = elim (Bool-cases (uuid i == uuid n)) [
    | inl same ↦ let e = fresh i n ((==_iff (uuid i) (uuid n)).0 same) in absurd (omega arith)
    | inr other ↦ other
  ]

  -- The task with the `k`-th id after that of its run.
  abbrev pub stage : ℕ → ℕ → ℕ → String → Value → Task Value
  stage n tenant_id k kind payload =
      new_task json uuid (uuid (n + k)) (uuid n) tenant_id kind payload

  pub stages : ℕ → ℕ → Value → List (Task Value)
  stages n tenant_id input =
      stage n tenant_id 1 "extractor" input
      ∷ stage n tenant_id 2 "normalizer" json.null
      ∷ stage n tenant_id 3 "chunker" json.null
      ∷ stage n tenant_id 4 "embedder" json.null
      ∷ stage n tenant_id 5 "indexer" json.null
      ∷ []

  stages-eq :
      (n tenant_id : ℕ) (profile : String) (input : Value)
      → (make_tasks json uuid (n + 1) (uuid n) tenant_id input 0 (profile_sequence profile)).0
        ≡ stages n tenant_id input
  unfolding make_tasks profile_sequence stages
  stages-eq n tenant_id profile input =
      let e2 : n + 1 + 1 ≡ n + 2 = omega arith in
      let e3 : n + 1 + 1 + 1 ≡ n + 3 = omega arith in
      let e4 : n + 1 + 1 + 1 + 1 ≡ n + 4 = omega arith in
      let e5 : n + 1 + 1 + 1 + 1 + 1 ≡ n + 5 = omega arith in
      rw (sym e5, sym e4, sym e3, sym e2) refl

  all_of_run :
      (n tenant_id : ℕ) (input : Value)
      → filter (λ t. t.dag_run_id == uuid n) (stages n tenant_id input) ≡ stages n tenant_id input
  unfolding stages
  all_of_run n tenant_id input = rw ((==_iff (uuid n) (uuid n)).1 refl) refl

  first_ready :
      (n tenant_id : ℕ) (input : Value)
      → filter (λ t. is_ready t (stages n tenant_id input)) (stages n tenant_id input)
        ≡ stage n tenant_id 1 "extractor" input ∷ []
  unfolding stages is_ready upstream_done ordering_for_kind
  first_ready n tenant_id input = refl

  -- What is saved stands behind what was there.
  values-make_tasks :
      ((m n : ℕ) → uuid m ≡ uuid n → m ≡ n)
      → (store : Store Value) (issued d t : ℕ) (input : Value) (idx : ℕ) (kinds : List String)
      → ((n : ℕ) → issued ≤ n → HashMap.get (uuid n) store.tasks ≡ none)
      → values (save_all store (make_tasks json uuid issued d t input idx kinds).0).tasks
        ≡ values store.tasks ++ (make_tasks json uuid issued d t input idx kinds).0
  unfolding make_tasks save_all
  values-make_tasks fresh store issued d t input idx [] unused =
      sym (append-nil (values store.tasks))
  values-make_tasks fresh store issued d t input idx (kind ∷ kinds) unused =
      let task : Task Value =
        new_task json uuid (uuid issued) d t kind (if eqb idx 0 then input else json.null) in
      let next : Store Value = record store { tasks = Tasks.save store.tasks task } in
      values-make_tasks fresh next (issued + 1) d t input (idx + 1) kinds (λ n later.
        HashMap.get-insert (uuid issued) (uuid n) task store.tasks
        ∙ (let other = apart fresh issued n later in rw other (unused n (omega arith))))
      ∙ ap (λ l. l ++ (make_tasks json uuid (issued + 1) d t input (idx + 1) kinds).0)
          (values-insert task store.tasks (unused issued (omega arith)))
      ∙ append_assoc (values store.tasks) (task ∷ []) _

  -- A new run has five tasks, one for each stage of the pipeline in its order, of which the extractor
  -- gets the input; and of these the extractor alone is ready. The ids that are still to be made must
  -- be distinct, none of a stored task, and the run's id not that of a stored task's run.
  pub create_dag_run-tasks :
      ((m n : ℕ) → uuid m ≡ uuid n → m ≡ n)
      → (store : Store Value) (tenant_id : ℕ) (profile : String) (input : Value)
      → ((n : ℕ) → store.issued ≤ n → HashMap.get (uuid n) store.tasks ≡ none)
      → ((t : Task Value) → Memᴰ t (values store.tasks) → t.dag_run_id ≢ uuid store.issued)
      → (Tasks.list_by_dag_run
            (create_dag_run json uuid store tenant_id profile input).1.tasks
            (create_dag_run json uuid store tenant_id profile input).0
          ≡ stages store.issued tenant_id input)
        × (filter
              (λ t. is_ready t (stages store.issued tenant_id input))
              (stages store.issued tenant_id input)
            ≡ stage store.issued tenant_id 1 "extractor" input ∷ [])
  unfolding create_dag_run Tasks.list_by_dag_run
  create_dag_run-tasks fresh store tenant_id profile input unused no_tasks =
      let d = uuid store.issued in
      let made =
        make_tasks json uuid (store.issued + 1) d tenant_id input 0 (profile_sequence profile) in
      let planned : Store Value = record store {
        dag_runs = DagRuns.save store.dag_runs (new_run json uuid d tenant_id profile input);
        issued = made.1;
      } in
      (
        ap (filter (λ t. t.dag_run_id == d)) (
              values-make_tasks fresh planned (store.issued + 1) d tenant_id input 0
                (profile_sequence profile) (λ n later. unused n (omega arith))
              ∙ ap (λ l. values store.tasks ++ l) (stages-eq store.issued tenant_id profile input))
            ∙ filter-append (λ t. t.dag_run_id == d) (values store.tasks)
                (stages store.issued tenant_id input)
            ∙ ap (λ l. l ++ filter (λ t. t.dag_run_id == d) (stages store.issued tenant_id input))
                (filter-eq-nil (λ t. t.dag_run_id == d) (values store.tasks)
                  (λ t m. elim (Bool-cases (t.dag_run_id == d)) [
                    | inl same ↦ absurd (no_tasks t m ((==_iff t.dag_run_id d).0 same))
                    | inr other ↦ other
                  ]))
            ∙ all_of_run store.issued tenant_id input,
        first_ready store.issued tenant_id input,
      )
