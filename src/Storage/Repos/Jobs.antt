-- ===== src/Storage/Repos/Jobs.antt =====
-- `MemJobsRepo` of crates/contexide-storage-pg/src/jobs/mem.rs, whose buckets are sets.
pub mod Listed
use contexide.Prelude.{
  ℕ, String, Bool, true, false, Option, none, some, List, leb, sort_by, truncate, nat_eq, pair_eq,
}
use contexide.HashMap
use contexide.HashMap.{HashMap}
use contexide.Core.Entities.{Job}
use contexide.Core.Entities.JobKind.{JobKind, kind_eq}
use contexide.Core.Entities.JobStatus.{JobStatus, status_eq}
use contexide.Storage.Buckets.{hash_set}
use contexide.Storage.Indexed
use contexide.Storage.Indexed.{Repo, Schema}

abbrev pub Group : Type 0
Group = JobKind × JobStatus

abbrev pub MemJobsRepo : Type 0
MemJobsRepo = Repo ℕ Group Job

abbrev pub jobs : Schema ℕ Group Job
jobs = record { key = λ j. j.id; group = λ j. (j.kind, j.status) }

abbrev pub get : MemJobsRepo → ℕ → Option Job
get repo id = Indexed.get repo id

abbrev pub idx_move : ℕ → Group → Group → HashMap Group (List ℕ) → HashMap Group (List ℕ)
idx_move id old new index = Indexed.index_add hash_set new id (Indexed.index_remove old id index)

abbrev pub save : MemJobsRepo → Job → MemJobsRepo
save repo entity = Indexed.save hash_set jobs repo entity

abbrev pub delete : MemJobsRepo → ℕ → MemJobsRepo × Bool
delete repo id = Indexed.delete hash_set jobs repo id

-- `id` is the one that `JobId::new()` makes.
abbrev pub create : MemJobsRepo → ℕ → ℕ → JobKind → JobStatus → Option String → MemJobsRepo × ℕ
create repo id tenant_id kind status payload_json = (
  save repo (record {
    id = id;
    tenant_id = tenant_id;
    kind = kind;
    status = status;
    payload_json = payload_json;
  }),
  id,
)

-- The index entry is moved also where the status stays.
unfoldable pub set_status : MemJobsRepo → ℕ → JobStatus → MemJobsRepo × Bool
set_status repo id status = elim (get repo id) [
  | some job ↦ (
    record {
      by_id = HashMap.insert id (record job { status = status }) repo.by_id;
      index = idx_move id (job.kind, job.status) (job.kind, status) repo.index;
    },
    true,
  )
  | none ↦ (repo, false)
]

abbrev pub by_id : Job → Job → Bool
by_id a b = leb a.id b.id

abbrev pub list_by_kind_status : MemJobsRepo → JobKind → JobStatus → Option ℕ → List Job
list_by_kind_status repo kind status limit =
    truncate limit (sort_by by_id (Indexed.list repo (kind, status)))
