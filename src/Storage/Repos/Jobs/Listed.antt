-- ===== src/Storage/Repos/Jobs/Listed.antt =====
-- The jobs that are listed, after any sequence of operations.
use contexide.Prelude.{
  ℕ, ◌≡◌, refl, inl, inr, none, some, List, [], ◌∷◌, arith, nat_eq, pair_eq, ==_iff, Option,
  Option-cases, IsTotal, String, take,
}
use contexide.HashMap.{get-insert}
use contexide.Core.Entities.{Job}
use contexide.Core.Entities.JobKind.{JobKind, kind_eq}
use contexide.Core.Entities.JobStatus.{JobStatus, status_eq}
use contexide.Storage.Buckets.{hash_set}
use contexide.Storage.Indexed.{new, index_remove}
use contexide.Storage.Indexed.Invariant.{
  IsIndexed, new-IsIndexed, save-IsIndexed, delete-IsIndexed, contains-index_add,
  contains-index_remove, index_add-is_distinct, index_remove-is_distinct,
}
use contexide.Storage.Indexed.History.{Enumerates, sorted_list-Enumerates}
use contexide.Storage.Repos.Jobs.{
  Group, MemJobsRepo, jobs, get, save, delete, create, set_status, by_id, list_by_kind_status,
}

module _ (repo : MemJobsRepo) (indexed : IsIndexed jobs repo) where
  set_status-IsIndexed :
      (id : ℕ) (status : JobStatus) → IsIndexed jobs (set_status repo id status).0
  unfolding set_status
  set_status-IsIndexed id status = elim (Option-cases (get repo id)) [
    | inl absent ↦ rw (absent, set_status) indexed
    | inr (job, found) ↦
        let old : Group = (job.kind, job.status) in
        let group : Group = (job.kind, status) in
        let changed : Job = record job { status = status } in
        let left = index_remove old id repo.index in
        rw (found, set_status)
          (record {
            owned = λ k v h. ground (
              arith,
              get-insert id k changed repo.by_id,
              ==_iff id k,
              indexed.owned id job found,
              indexed.owned k v,
            );
            listed = λ g k. ground (
              arith,
              contains-index_add jobs hash_set repo indexed left group g id k,
              contains-index_remove jobs hash_set repo indexed old group id k,
              contains-index_remove jobs hash_set repo indexed old g id k,
              get-insert id k changed repo.by_id,
              ==_iff id k,
              ==_iff group g,
              ==_iff old g,
              indexed.listed g k,
            );
            distinct = λ g.
                index_add-is_distinct jobs hash_set repo indexed left group g id
                  (λ i. index_remove-is_distinct jobs hash_set repo indexed old i id)
                  (ground (
                    arith,
                    contains-index_remove jobs hash_set repo indexed old group id id,
                    ==_iff old group,
                    ==_iff id id,
                    indexed.listed group id,
                    found,
                  ));
          })
  ]

-- The calls that change the repository. `created` has the id that `JobId::new()` makes.
pub data Call : Type 0 where
  saved : Job → Call
  created : ℕ → ℕ → JobKind → JobStatus → Option String → Call
  deleted : ℕ → Call
  status_set : ℕ → JobStatus → Call

unfoldable pub apply : MemJobsRepo → Call → MemJobsRepo
apply repo (saved job) = save repo job
apply repo (created id tenant_id kind status payload) =
    (create repo id tenant_id kind status payload).0
apply repo (deleted id) = (delete repo id).0
apply repo (status_set id status) = (set_status repo id status).0

unfoldable pub after : MemJobsRepo → List Call → MemJobsRepo
after repo [] = repo
after repo (c ∷ cs) = after (apply repo c) cs

apply-IsIndexed :
    (repo : MemJobsRepo) (c : Call) → IsIndexed jobs repo → IsIndexed jobs (apply repo c)
unfolding apply
apply-IsIndexed repo (saved job) indexed = save-IsIndexed jobs hash_set repo indexed job
apply-IsIndexed repo (created id tenant_id kind status payload) indexed =
    save-IsIndexed jobs hash_set repo indexed _
apply-IsIndexed repo (deleted id) indexed = delete-IsIndexed jobs hash_set repo indexed id
apply-IsIndexed repo (status_set id status) indexed = set_status-IsIndexed repo indexed id status

after-IsIndexed :
    (repo : MemJobsRepo) (cs : List Call) → IsIndexed jobs repo → IsIndexed jobs (after repo cs)
unfolding after
after-IsIndexed repo [] indexed = indexed
after-IsIndexed repo (c ∷ cs) indexed =
    after-IsIndexed (apply repo c) cs (apply-IsIndexed repo c indexed)

ids-IsTotal : IsTotal by_id
ids-IsTotal a b h = ground arith

-- After any sequence of calls from an empty repository on, `list_by_kind_status` gives without a limit
-- the stored jobs of the kind and status, each once and ordered by their ids, and with a limit as many
-- of the first of these.
pub list_by_kind_status-Enumerates :
    (cs : List Call) (kind : JobKind) (status : JobStatus) (limit : ℕ)
    → let repo = after new cs in
      Enumerates hash_set jobs by_id repo (kind, status) (list_by_kind_status repo kind status none)
      × (list_by_kind_status repo kind status (some limit)
          ≡ take limit (list_by_kind_status repo kind status none))
list_by_kind_status-Enumerates cs kind status limit = (
  sorted_list-Enumerates hash_set jobs by_id ids-IsTotal (after new cs) (kind, status)
      (after-IsIndexed new cs (new-IsIndexed jobs)),
  refl,
)
