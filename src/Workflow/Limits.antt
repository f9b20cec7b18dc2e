-- ===== src/Workflow/Limits.antt =====
-- crates/contexide-core/src/workflow/limits.rs: may one more task be started? The counters are `u32`;
-- the code only compares them.
use contexide.Prelude.{ℕ, ◌+◌, ◌≤◌, ◌<◌, ◌≡◌, ◌↔◌, arith, leb, if◌then◌else◌}

pub record TenantLimits : Type 0 where
  pub max_running_dag_runs : ℕ
  pub max_running_tasks : ℕ

pub record DomainLimits : Type 0 where
  pub max_running_tasks_global : ℕ
  pub max_running_tasks_per_tenant : ℕ

pub record GlobalLimits : Type 0 where
  pub max_running_tasks_total : ℕ

pub record LimitsView : Type 0 where
  pub global : GlobalLimits
  pub tenant : TenantLimits
  pub domain : DomainLimits

pub record UsageSnapshot : Type 0 where
  pub running_tasks_total : ℕ
  pub tenant_running_dag_runs : ℕ
  pub tenant_running_tasks : ℕ
  pub tenant_domain_running_tasks : ℕ
  pub domain_running_tasks_global : ℕ

pub data AdmissionDecision : Type 0 where
  allow throttle : AdmissionDecision

pub decide_admission : LimitsView → UsageSnapshot → AdmissionDecision
decide_admission limits usage =
    if leb limits.global.max_running_tasks_total usage.running_tasks_total
    then throttle
    else if leb limits.tenant.max_running_dag_runs usage.tenant_running_dag_runs
    then throttle
    else if leb limits.tenant.max_running_tasks usage.tenant_running_tasks
    then throttle
    else if leb limits.domain.max_running_tasks_per_tenant usage.tenant_domain_running_tasks
    then throttle
    else if leb limits.domain.max_running_tasks_global usage.domain_running_tasks_global
    then throttle
    else allow

-- No task counter passes its limit.
pub record IsWithin (limits : LimitsView) (usage : UsageSnapshot) : Type 0 where
  pub total : usage.running_tasks_total ≤ limits.global.max_running_tasks_total
  pub tenant : usage.tenant_running_tasks ≤ limits.tenant.max_running_tasks
  pub tenant_domain : usage.tenant_domain_running_tasks ≤ limits.domain.max_running_tasks_per_tenant
  pub domain : usage.domain_running_tasks_global ≤ limits.domain.max_running_tasks_global

-- The usage after one more task of the tenant and the domain was started.
abbrev pub started : UsageSnapshot → UsageSnapshot
started usage = record usage {
  running_tasks_total = usage.running_tasks_total + 1;
  tenant_running_tasks = usage.tenant_running_tasks + 1;
  tenant_domain_running_tasks = usage.tenant_domain_running_tasks + 1;
  domain_running_tasks_global = usage.domain_running_tasks_global + 1;
}

-- A task is admitted exactly if the task counters stay within their limits once it is started and
-- the tenant runs fewer DAGs than it may.
pub decide_admission_iff :
    (limits : LimitsView) (usage : UsageSnapshot)
    → (decide_admission limits usage ≡ allow) ↔ (
        IsWithin limits (started usage)
        × (usage.tenant_running_dag_runs < limits.tenant.max_running_dag_runs))
unfolding decide_admission
decide_admission_iff limits usage = (λ h. ground arith, λ h. ground arith)
