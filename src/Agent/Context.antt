-- ===== src/Agent/Context.antt =====
-- The context of an execution of packages/agent/src/context.ts; `now` is `Date.now()`.
use baara_next.Base.{ℕ, ◌-◌, Bool, leb}
use baara_next.Core.Types.{Key, Task}
use baara_next.Orchestrator.Service.Match.{TaskAssignment}

pub record ExecutionContext : Type 0 where
  pub execution_id : Key
  pub task : Task
  pub attempt : ℕ
  pub start_time : ℕ
  pub turn_count : ℕ

abbrev pub create_context : TaskAssignment → (now : ℕ) → ExecutionContext
create_context a now = record {
  execution_id = a.execution_id;
  task = a.task;
  attempt = a.attempt;
  start_time = now;
  turn_count = 0;
}

abbrev pub elapsed : ExecutionContext → (now : ℕ) → ℕ
elapsed c now = now - c.start_time

abbrev pub is_timed_out : ExecutionContext → (now : ℕ) → Bool
is_timed_out c now = leb c.task.timeout_ms (elapsed c now)
