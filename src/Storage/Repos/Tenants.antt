-- ===== src/Storage/Repos/Tenants.antt =====
-- `MemTenantsRepo` of crates/contexide-storage-pg/src/tenants/mem.rs.
pub mod Unique
use contexide.Prelude.{
  ℕ, String, Bool, true, false, Option, none, some, List, [], Result, ok, err, ◌==◌, leb,
  if◌then◌else◌, sort_by, truncate, nat_eq, string_eq,
}
use contexide.HashMap
use contexide.HashMap.{HashMap, values}
use contexide.Core.Entities.{Tenant}

pub record MemTenantsRepo : Type 0 where
  pub by_id : HashMap ℕ Tenant
  pub by_name : HashMap String ℕ
  pub by_email : HashMap String ℕ

-- The three messages of `create`.
pub data Conflict : Type 0 where
  different_tenants : String → String → Conflict
  different_email : String → Conflict
  different_name : String → Conflict

abbrev pub new : MemTenantsRepo
new = record { by_id = []; by_name = []; by_email = [] }

abbrev pub get : MemTenantsRepo → ℕ → Option Tenant
get repo id = HashMap.get id repo.by_id

unfoldable pub save : MemTenantsRepo → Tenant → MemTenantsRepo
save repo entity = record {
  by_name = HashMap.insert entity.name entity.id repo.by_name;
  by_email = HashMap.insert entity.email entity.id repo.by_email;
  by_id = HashMap.insert entity.id entity repo.by_id;
}

-- A name, or an email, is dropped if it stands for the removed id.
unfoldable pub unlink : String → ℕ → HashMap String ℕ → HashMap String ℕ
unlink text id m = elim (HashMap.get text m) [
  | some mapped ↦ if mapped == id then HashMap.remove text m else m
  | none ↦ m
]

unfoldable pub delete : MemTenantsRepo → ℕ → MemTenantsRepo × Bool
delete repo id = elim (get repo id) [
  | some old ↦ (
    record {
      by_id = HashMap.remove id repo.by_id;
      by_name = unlink old.name id repo.by_name;
      by_email = unlink old.email id repo.by_email;
    },
    true,
  )
  | none ↦ (repo, false)
]

-- The name is known and the email is not, or the other way.
unfoldable pub same_email : MemTenantsRepo → ℕ → String → String → Result Conflict ℕ
same_email repo id_n name email = elim (get repo id_n) [
  | some t ↦ if t.email == email then ok id_n else err (different_email name)
  | none ↦ err (different_email name)
]

unfoldable pub same_name : MemTenantsRepo → ℕ → String → String → Result Conflict ℕ
same_name repo id_e name email = elim (get repo id_e) [
  | some t ↦ if t.name == name then ok id_e else err (different_name email)
  | none ↦ err (different_name email)
]

-- `fresh` is the id that `TenantId::new()` makes.
unfoldable pub create : MemTenantsRepo → ℕ → String → String → MemTenantsRepo × Result Conflict ℕ
create repo fresh name email = elim (HashMap.get name repo.by_name) [
  | some id_n ↦ elim (HashMap.get email repo.by_email) [
    | some id_e ↦ (repo, if id_n == id_e then ok id_n else err (different_tenants name email))
    | none ↦ (repo, same_email repo id_n name email)
  ]
  | none ↦ elim (HashMap.get email repo.by_email) [
    | some id_e ↦ (repo, same_name repo id_e name email)
    | none ↦ (save repo (record { id = fresh; name = name; email = email }), ok fresh)
  ]
]

abbrev pub found : MemTenantsRepo → Option ℕ → Option Tenant
found repo none = none
found repo (some id) = get repo id

abbrev pub get_by_name : MemTenantsRepo → String → Option Tenant
get_by_name repo name = found repo (HashMap.get name repo.by_name)

abbrev pub get_by_email : MemTenantsRepo → String → Option Tenant
get_by_email repo email = found repo (HashMap.get email repo.by_email)

abbrev pub by_tenant_id : Tenant → Tenant → Bool
by_tenant_id a b = leb a.id b.id

pub list : MemTenantsRepo → Option ℕ → List Tenant
list repo limit = truncate limit (sort_by by_tenant_id (values repo.by_id))
