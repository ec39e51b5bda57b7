-- ===== src/Orchestrator/TaskManager.antt =====
-- packages/orchestrator/src/task-manager.ts. The numbers of an input are integers from 0 on; a
-- budget is in millionths of a dollar.
pub mod Limits
use baara_next.Base.{
  ℕ, Bool, true, false, not, Option, none, some, if◌then◌else◌, min, max, map_some,
}
use baara_next.Core.Types.{
  Key, Task, TaskInput, AgentConfig, ExecutionType, unknown_type, PermissionMode, unknown_mode,
}
use baara_next.Core.Errors.{Result, ok, err, other, guard, task_not_found, ◌>>=◌, ◌>>◌, or_err}
use baara_next.Store.{Store, get_task}
use baara_next.Store.Tasks.{create_task, update_task, delete_task}

abbrev pub min_timeout_ms : ℕ
min_timeout_ms = 1000

abbrev pub max_timeout_ms : ℕ
max_timeout_ms = 3600000

abbrev pub min_retries : ℕ
min_retries = 0

abbrev pub max_retries : ℕ
max_retries = 10

abbrev pub max_budget_usd : ℕ
max_budget_usd = 10000000

-- `VALID_EXECUTION_TYPES.includes`
abbrev pub is_valid_type : ExecutionType → Bool
is_valid_type (unknown_type k) = false
is_valid_type _ = true

-- `VALID_PERMISSION_MODES.includes`
abbrev pub is_valid_mode : PermissionMode → Bool
is_valid_mode (unknown_mode k) = false
is_valid_mode _ = true

abbrev pub clamp : (lo hi : ℕ) → ℕ → ℕ
clamp lo hi n = min (max n lo) hi

-- `undefined` passes each of the tests.
abbrev pub holds_of {ℓ} : {A : Type ℓ} → (A → Bool) → Option A → Bool
holds_of test none = true
holds_of test (some a) = test a

-- The part of `sanitizeInput` about `agentConfig`.
unfoldable pub sanitize_config : AgentConfig → Result AgentConfig
sanitize_config c = do
  guard (holds_of is_valid_mode c.permission_mode) other
  ok (record c {
    budget_usd = map_some (λ b. min b max_budget_usd) c.budget_usd;
    max_turns = map_some (clamp 1 200) c.max_turns;
  })

abbrev pub sanitize_agent : Option (Option AgentConfig) → Result (Option (Option AgentConfig))
sanitize_agent none = ok none
sanitize_agent (some none) = ok (some none)
sanitize_agent (some (some c)) = do c' ← sanitize_config c; ok (some (some c'))

-- `sanitizeInput`
unfoldable pub sanitize_input : TaskInput → Result TaskInput
unfolding sanitize_config
sanitize_input input = do
  guard (holds_of is_valid_type input.execution_type) other
  agent_config ← sanitize_agent input.agent_config
  ok (record input {
    timeout_ms = map_some (clamp min_timeout_ms max_timeout_ms) input.timeout_ms;
    max_retries = map_some (clamp min_retries max_retries) input.max_retries;
    agent_config = agent_config;
  })

-- `createTask`, with the id that `crypto.randomUUID` gives.
unfoldable pub create : (id : Key) → TaskInput → (now : ℕ) → Store → Result Store
create id input now s = do input' ← sanitize_input input; create_task id input' now s

-- `updateTask`
unfoldable pub modify : (id : Key) → TaskInput → (now : ℕ) → Store → Result Store
modify id input now s = do input' ← sanitize_input input; update_task id input' now s

abbrev pub nothing : TaskInput
nothing = record {
  name = none;
  description = none;
  prompt = none;
  cron_expression = none;
  timeout_ms = none;
  execution_type = none;
  sandbox_type = none;
  sandbox_config = none;
  agent_config = none;
  priority = none;
  target_queue = none;
  max_retries = none;
  execution_mode = none;
  enabled = none;
  project_id = none;
  target_thread_id = none;
}

-- `toggleTask`
unfoldable pub toggle : (id : Key) → (now : ℕ) → Store → Result Store
toggle id now s = do
  task ← or_err (get_task id s) (task_not_found id)
  update_task id (record nothing { enabled = some (not task.enabled) }) now s
