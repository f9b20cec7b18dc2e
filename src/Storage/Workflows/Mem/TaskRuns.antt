-- ===== src/Storage/Workflows/Mem/TaskRuns.antt =====
-- `MemTaskRunRepo` of crates/contexide-storage-pg/src/workflows/mem.rs.
use contexide.Prelude.{ℕ, Bool, Option, List, nat_eq, ◌==◌, leb_ℤ, filter, sort_by, is_some}
use contexide.HashMap
use contexide.HashMap.{HashMap, values}
use contexide.Storage.Workflows.{TaskRun}

abbrev pub MemTaskRunRepo : Type 0
MemTaskRunRepo = HashMap ℕ TaskRun

abbrev pub get : MemTaskRunRepo → ℕ → Option TaskRun
get repo id = HashMap.get id repo

abbrev pub save : MemTaskRunRepo → TaskRun → MemTaskRunRepo
save repo entity = HashMap.insert entity.id entity repo

pub delete : MemTaskRunRepo → ℕ → MemTaskRunRepo × Bool
delete repo id = (HashMap.remove id repo, is_some (HashMap.get id repo))

abbrev by_attempt : TaskRun → TaskRun → Bool
by_attempt a b = leb_ℤ a.attempt_no b.attempt_no

pub list_all : MemTaskRunRepo → List TaskRun
list_all repo = sort_by by_attempt (values repo)

unfoldable pub list_by_task : MemTaskRunRepo → ℕ → List TaskRun
list_by_task repo task_id = sort_by by_attempt (filter (λ tr. tr.task_id == task_id) (values repo))
