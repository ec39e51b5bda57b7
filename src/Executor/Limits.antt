-- ===== src/Executor/Limits.antt =====
-- The resource limits of packages/executor/src/sandbox.ts; the budget is in millionths of a dollar.
use baara_next.Base.{ℕ, Option, none, some, or_else}

pub record ResourceLimits : Type 0 where
  pub max_memory_mb : Option ℕ
  pub max_cpu_percent : Option ℕ
  pub max_duration_ms : Option ℕ
  pub budget_usd : Option ℕ

abbrev pub default_limits : ResourceLimits
default_limits = record {
  max_memory_mb = some 512;
  max_cpu_percent = some 80;
  max_duration_ms = some 300000;
  budget_usd = some 2000000;
}

-- The fields that the override has replace those of the base.
abbrev pub override_limits : Option ResourceLimits → ResourceLimits → ResourceLimits
override_limits none base = base
override_limits (some l) base = record {
  max_memory_mb = or_else l.max_memory_mb base.max_memory_mb;
  max_cpu_percent = or_else l.max_cpu_percent base.max_cpu_percent;
  max_duration_ms = or_else l.max_duration_ms base.max_duration_ms;
  budget_usd = or_else l.budget_usd base.budget_usd;
}

-- `mergeLimits`
abbrev pub merge_limits : Option ResourceLimits → Option ResourceLimits → ResourceLimits
merge_limits task_limits global_limits =
    override_limits task_limits (override_limits global_limits default_limits)
