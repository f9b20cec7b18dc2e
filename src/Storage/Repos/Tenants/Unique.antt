-- ===== src/Storage/Repos/Tenants/Unique.antt =====
-- Names and emails of tenants.
use contexide.Prelude.{
  ℕ, String, ◌≡◌, ◌≢◌, ◌↔◌, ◌⊎◌, sym, ap, ◌∙◌, inl, inr, Option, none, some, Result, ok, arith,
  nat_eq, string_eq, ==_iff, Option-cases,
}
use contexide.HashMap
use contexide.HashMap.{HashMap, get-insert, get-remove}
use contexide.Core.Entities.{Tenant}
use contexide.Storage.Repos.Tenants.{
  MemTenantsRepo, Conflict, new, get, save, unlink, delete, same_email, same_name, create,
}

abbrev text_of : (Tenant → String) → Option Tenant → Option String
text_of text none = none
text_of text (some t) = some (text t)

-- The texts, names or emails, that `m` knows are those of the stored tenants.
abbrev pub Links : HashMap ℕ Tenant → (Tenant → String) → HashMap String ℕ → Type 0
Links by_id text m =
    (s : String) (id : ℕ)
    → (HashMap.get s m ≡ some id) ↔ (text_of text (HashMap.get id by_id) ≡ some s)

pub record IsLinked (repo : MemTenantsRepo) : Type 0 where
  pub owned : (id : ℕ) (t : Tenant) → get repo id ≡ some t → t.id ≡ id
  pub names : Links repo.by_id (λ t. t.name) repo.by_name
  pub emails : Links repo.by_id (λ t. t.email) repo.by_email

pub new-IsLinked : IsLinked new
unfolding HashMap.get
new-IsLinked = record {
  owned = λ id t h. cc;
  names = λ s id. (λ h. cc, λ h. cc);
  emails = λ s id. (λ h. cc, λ h. cc);
}

module _ (by_id : HashMap ℕ Tenant) (text : Tenant → String) (m : HashMap String ℕ) where
  -- A tenant with a new id and a new text.
  Links-insert :
      (t : Tenant)
      → HashMap.get t.id by_id ≡ none
      → HashMap.get (text t) m ≡ none
      → Links by_id text m
      → Links (HashMap.insert t.id t by_id) text (HashMap.insert (text t) t.id m)
  Links-insert t fresh unused links s id =
      let at_id = get-insert t.id id t by_id in
      let at_s = get-insert (text t) s t.id m in
      (
        λ h. ground (arith, at_id, at_s, ==_iff t.id id, ==_iff (text t) s, (links s id).0),
        λ h. ground (arith, at_id, at_s, ==_iff t.id id, ==_iff (text t) s, (links s id).1),
      )

  Links-remove :
      (id : ℕ) (t : Tenant)
      → HashMap.get id by_id ≡ some t
      → Links by_id text m
      → Links (HashMap.remove id by_id) text (unlink (text t) id m)
  unfolding unlink
  Links-remove id t found links s i =
      let mine : HashMap.get (text t) m ≡ some id =
        (links (text t) id).1 (ap (text_of text) found) in
      let at_i = get-remove id i by_id in
      let at_s = get-remove (text t) s m in
      (
        λ h. ground (arith, mine, at_i, at_s, ==_iff id i, ==_iff (text t) s, (links s i).0),
        λ h. ground (arith, mine, at_i, at_s, ==_iff id i, ==_iff (text t) s, (links s i).1),
      )

-- The tenant with this id has the name; the email.
abbrev pub Named : MemTenantsRepo → String → ℕ → Type 0
Named repo name id = text_of (λ t. t.name) (get repo id) ≡ some name

abbrev pub Reached : MemTenantsRepo → String → ℕ → Type 0
Reached repo email id = text_of (λ t. t.email) (get repo id) ≡ some email

abbrev pub IsFree : MemTenantsRepo → String → String → Type 0
IsFree repo name email = (id : ℕ) → (¬ Named repo name id) × (¬ Reached repo email id)

abbrev pub registered : MemTenantsRepo → ℕ → String → String → MemTenantsRepo × Result Conflict ℕ
registered repo fresh name email =
    (save repo (record { id = fresh; name = name; email = email }), ok fresh)

module _ (repo : MemTenantsRepo) (linked : IsLinked repo) where
  module _ (fresh : ℕ) (name email : String) where
    no_name : IsFree repo name email → HashMap.get name repo.by_name ≡ none
    no_name free = elim (Option-cases (HashMap.get name repo.by_name)) [
      | inl absent ↦ absent
      | inr (id, found) ↦ absurd ((free id).0 ((linked.names name id).0 found))
    ]

    no_email : IsFree repo name email → HashMap.get email repo.by_email ≡ none
    no_email free = elim (Option-cases (HashMap.get email repo.by_email)) [
      | inl absent ↦ absent
      | inr (id, found) ↦ absurd ((free id).1 ((linked.emails email id).0 found))
    ]

    create_free :
        IsFree repo name email → create repo fresh name email ≡ registered repo fresh name email
    unfolding create
    create_free free = ground (arith, no_name free, no_email free)

    create_known :
        (id : ℕ)
        → Named repo name id
        → Reached repo email id
        → create repo fresh name email ≡ (repo, ok id)
    unfolding create
    create_known id named reached =
        ground (arith, (linked.names name id).1 named, (linked.emails email id).1 reached)

    -- A tenant with the name and another email, or the other way, is no answer.
    same_email-err :
        (id_n id : ℕ)
        → HashMap.get email repo.by_email ≡ none
        → same_email repo id_n name email ≢ ok id
    unfolding same_email
    same_email-err id_n id absent h = elim (Option-cases (get repo id_n)) [
      | inl gone ↦ ground (arith, gone)
      | inr (t, stored) ↦
          let known = (linked.emails t.email id_n).1 (ap (text_of (λ t. t.email)) stored) in
          ground (arith, stored, known, ==_iff t.email email)
    ]

    same_name-err :
        (id_e id : ℕ)
        → HashMap.get name repo.by_name ≡ none
        → same_name repo id_e name email ≢ ok id
    unfolding same_name
    same_name-err id_e id absent h = elim (Option-cases (get repo id_e)) [
      | inl gone ↦ ground (arith, gone)
      | inr (t, stored) ↦
          let known = (linked.names t.name id_e).1 (ap (text_of (λ t. t.name)) stored) in
          ground (arith, stored, known, ==_iff t.name name)
    ]

    IsFree-of_none :
        HashMap.get name repo.by_name ≡ none
        → HashMap.get email repo.by_email ≡ none
        → IsFree repo name email
    IsFree-of_none a b id = (
      λ named. let e = (linked.names name id).1 named in cc,
      λ reached. let e = (linked.emails email id).1 reached in cc,
    )

    create_answers :
        (id : ℕ)
        → (create repo fresh name email).1 ≡ ok id
        → (Named repo name id × Reached repo email id) ⊎ (IsFree repo name email × (id ≡ fresh))
    unfolding create
    create_answers id h = elim (Option-cases (HashMap.get name repo.by_name)) [
      | inr (id_n, known) ↦ elim (Option-cases (HashMap.get email repo.by_email)) [
        | inr (id_e, reached) ↦
            let n = (linked.names name id_n).0 known in
            let r = (linked.emails email id_e).0 reached in
            let same : (id_n ≡ id) × (id_e ≡ id) = ground (arith, ==_iff id_n id_e) in
            inl (rw (← same.0) n, rw (← same.1) r)
        | inl absent ↦ absurd (same_email-err id_n id absent (rw (known, absent, create) at h))
      ]
      | inl unnamed ↦ elim (Option-cases (HashMap.get email repo.by_email)) [
        | inr (id_e, reached) ↦
            absurd (same_name-err id_e id unnamed (rw (unnamed, reached, create) at h))
        | inl absent ↦ inr (IsFree-of_none unnamed absent, ground arith)
      ]
    ]

    create_stores :
        ((create repo fresh name email).0 ≡ repo)
        ⊎ (create repo fresh name email ≡ registered repo fresh name email)
    unfolding create
    create_stores = elim (Option-cases (HashMap.get name repo.by_name)) [
      | inr (id_n, known) ↦ inl (ground arith)
      | inl unnamed ↦ elim (Option-cases (HashMap.get email repo.by_email)) [
        | inr (id_e, reached) ↦ inl (ground arith)
        | inl absent ↦ inr (ground arith)
      ]
    ]

    created-IsLinked : get repo fresh ≡ none → IsLinked (create repo fresh name email).0
    unfolding create save
    created-IsLinked is_new = elim (Option-cases (HashMap.get name repo.by_name)) [
      | inr (id_n, known) ↦ elim (Option-cases (HashMap.get email repo.by_email)) [
        | inr (id_e, reached) ↦ rw (known, reached, create) linked
        | inl absent ↦ rw (known, absent, create) linked
      ]
      | inl no_name ↦ elim (Option-cases (HashMap.get email repo.by_email)) [
        | inr (id_e, reached) ↦ rw (no_name, reached, create) linked
        | inl no_email ↦
            let t : Tenant = record { id = fresh; name = name; email = email } in
            rw (no_name, no_email, create)
              (record {
                owned = λ id u h.
                    ground
                      (arith, get-insert fresh id t repo.by_id, ==_iff fresh id, linked.owned id u);
                names =
                    Links-insert repo.by_id (λ t. t.name) repo.by_name t is_new no_name
                      linked.names;
                emails =
                    Links-insert repo.by_id (λ t. t.email) repo.by_email t is_new no_email
                      linked.emails;
              })
      ]
    ]

  delete-IsLinked : (id : ℕ) → IsLinked (delete repo id).0
  unfolding delete
  delete-IsLinked id = elim (Option-cases (get repo id)) [
    | inl absent ↦ rw (absent, delete) linked
    | inr (t, stored) ↦
        rw (stored, delete)
          (record {
            owned = λ k u h. ground (arith, get-remove id k repo.by_id, linked.owned k u);
            names = Links-remove repo.by_id (λ t. t.name) repo.by_name id t stored linked.names;
            emails = Links-remove repo.by_id (λ t. t.email) repo.by_email id t stored linked.emails;
          })
  ]

-- The repositories that calls of `create`, with ids that are not yet in use, and of `delete` lead to.
pub data Reach : MemTenantsRepo → Type 0 where
  start : Reach new
  created :
      {repo : MemTenantsRepo} (fresh : ℕ) (name email : String)
      → Reach repo
      → get repo fresh ≡ none
      → Reach (create repo fresh name email).0
  deleted : {repo : MemTenantsRepo} (id : ℕ) → Reach repo → Reach (delete repo id).0

pub Reach-IsLinked : (repo : MemTenantsRepo) → Reach repo → IsLinked repo
Reach-IsLinked _ start = new-IsLinked
Reach-IsLinked _ (created {repo} fresh name email r is_new) =
    created-IsLinked repo (Reach-IsLinked repo r) fresh name email is_new
Reach-IsLinked _ (deleted {repo} id r) = delete-IsLinked repo (Reach-IsLinked repo r) id

-- In a repository that creations and deletions lead to: `create` returns an id exactly if the tenant
-- with that id has both the name and the email, or if no tenant has either and the id is the new one;
-- so it refuses where a tenant has one of them alone. It stores the new tenant, or changes nothing.
pub create_iff :
    (repo : MemTenantsRepo) (fresh : ℕ) (name email : String)
    → Reach repo
    → ((id : ℕ)
        → ((create repo fresh name email).1 ≡ ok id) ↔ (
            (Named repo name id × Reached repo email id) ⊎ (IsFree repo name email × (id ≡ fresh))))
      × (((create repo fresh name email).0 ≡ repo)
          ⊎ (create repo fresh name email ≡ registered repo fresh name email))
create_iff repo fresh name email reach =
    let linked = Reach-IsLinked repo reach in
    (
      λ id. (
        create_answers repo linked fresh name email id,
        λ which. elim which [
          | inl (named, reached) ↦
              ap (λ r. r.1) (create_known repo linked fresh name email id named reached)
          | inr (free, is_new) ↦
              ap (λ r. r.1) (create_free repo linked fresh name email free) ∙ ap ok (sym is_new)
        ],
      ),
      create_stores repo linked fresh name email,
    )
