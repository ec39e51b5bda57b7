-- ===== src/Store/Tasks.antt =====
-- The tasks of packages/store/src/sqlite-store.ts, with the constraints and the cascades that the
-- schema of packages/store/src/migrations.ts declares.
use baara_next.Base.{
  ℕ, List, [], ◌∷◌, ◌++◌, Bool, true, false, not, ◌&&◌, ◌||◌, Option, none, some, if◌then◌else◌,
  ◌==◌, is_some, get_or, keep, update, remove, exists_in,
}
use baara_next.Core.Errors.{
  Result, ok, guard, or_err, constraint_failed, duplicate_entity, task_not_found, ◌>>=◌, ◌>>◌,
}
use baara_next.Core.Types.{
  Key, Text, Task, TaskInput, SandboxType, SandboxConfig, ExecutionType, ExecutionMode, Execution,
  transfer_queue,
}
use baara_next.Store.Schema.{Store, get_task, get_project, get_thread, refers, newest_first}

-- `legacyMap` of `rowToTask`
unfoldable pub legacy_type : SandboxType → ExecutionType
legacy_type SandboxType.native = ExecutionType.cloud_code
legacy_type SandboxType.wasm = ExecutionType.wasm
legacy_type SandboxType.docker = ExecutionType.cloud_code

-- The row that `createTask` inserts, read back by `rowToTask`: `executionType` is not stored.
unfoldable pub new_task : (id name : Key) (prompt : Text) → TaskInput → (now : ℕ) → Task
unfolding legacy_type
new_task id name prompt input now = record {
  id = id;
  name = name;
  description = get_or input.description [];
  prompt = prompt;
  cron_expression = get_or input.cron_expression none;
  timeout_ms = get_or input.timeout_ms 300000;
  execution_type = legacy_type (get_or input.sandbox_type SandboxType.native);
  sandbox_type = get_or input.sandbox_type SandboxType.native;
  sandbox_config = get_or input.sandbox_config SandboxConfig.native;
  agent_config = get_or input.agent_config none;
  priority = get_or input.priority 1;
  target_queue = get_or input.target_queue transfer_queue;
  max_retries = get_or input.max_retries 0;
  execution_mode = get_or input.execution_mode ExecutionMode.queued;
  enabled = get_or input.enabled true;
  project_id = get_or input.project_id none;
  target_thread_id = get_or input.target_thread_id none;
  created_at = now;
  updated_at = now;
}

-- The foreign keys of `tasks`.
abbrev pub task_refers : Task → Store → Bool
task_refers t s =
    refers (λ id. get_project id s) t.project_id
    && refers (λ id. get_thread id s) t.target_thread_id

-- `createTask`
unfoldable pub create_task : (id : Key) → TaskInput → (now : ℕ) → Store → Result Store
unfolding new_task
create_task id input now s = do
  name ← or_err input.name constraint_failed
  prompt ← or_err input.prompt constraint_failed
  let t = new_task id name prompt input now
  guard (not (exists_in (λ (x : Task). x.id == id || x.name == name) s.tasks))
      (duplicate_entity name)
  guard (task_refers t s) constraint_failed
  ok (record s { tasks = s.tasks ++ t ∷ [] })

-- `fields.length`: whether `updateTask` has a column to set.
abbrev pub sets_nothing : TaskInput → Bool
sets_nothing input = not (
    is_some input.name
    || is_some input.description
    || is_some input.prompt
    || is_some input.cron_expression
    || is_some input.timeout_ms
    || is_some input.sandbox_type
    || is_some input.sandbox_config
    || is_some input.agent_config
    || is_some input.priority
    || is_some input.target_queue
    || is_some input.max_retries
    || is_some input.execution_mode
    || is_some input.enabled
    || is_some input.project_id
    || is_some input.target_thread_id)

-- The SET clauses of `updateTask`.
unfoldable pub with_input : TaskInput → (now : ℕ) → Task → Task
unfolding legacy_type
with_input input now t = record t {
  name = get_or input.name t.name;
  description = get_or input.description t.description;
  prompt = get_or input.prompt t.prompt;
  cron_expression = get_or input.cron_expression t.cron_expression;
  timeout_ms = get_or input.timeout_ms t.timeout_ms;
  execution_type = legacy_type (get_or input.sandbox_type t.sandbox_type);
  sandbox_type = get_or input.sandbox_type t.sandbox_type;
  sandbox_config = get_or input.sandbox_config t.sandbox_config;
  agent_config = get_or input.agent_config t.agent_config;
  priority = get_or input.priority t.priority;
  target_queue = get_or input.target_queue t.target_queue;
  max_retries = get_or input.max_retries t.max_retries;
  execution_mode = get_or input.execution_mode t.execution_mode;
  enabled = get_or input.enabled t.enabled;
  project_id = get_or input.project_id t.project_id;
  target_thread_id = get_or input.target_thread_id t.target_thread_id;
  updated_at = now;
}

-- `updateTask`
unfoldable pub update_task : (id : Key) → TaskInput → (now : ℕ) → Store → Result Store
unfolding with_input
update_task id input now s = do
  existing ← or_err (get_task id s) (task_not_found id)
  let t = with_input input now existing
  let taken = exists_in (λ (x : Task). not (x.id == id) && x.name == t.name) s.tasks
  let done =
      (guard (not taken) (duplicate_entity t.name)
        >> (guard (task_refers t s) constraint_failed
            >> ok (record s { tasks = update (λ x. x.id) id (with_input input now) s.tasks })))
  if sets_nothing input then ok s else done

-- `ON DELETE CASCADE` from an execution to its rows: what is left of a table.
abbrev pub still_there : List Execution → Key → Bool
still_there executions id = exists_in (λ (e : Execution). e.id == id) executions

-- `deleteTask`, with the cascades from the task to its executions and from these to their rows.
unfoldable pub delete_task : (id : Key) → Store → Result Store
delete_task id s = do
  _ ← or_err (get_task id s) (task_not_found id)
  let left = keep (λ (e : Execution). not (e.task_id == id)) s.executions
  ok (record s {
    tasks = remove (λ t. t.id) id s.tasks;
    executions = left;
    events = keep (λ e. still_there left e.execution_id) s.events;
    input_requests = keep (λ r. still_there left r.execution_id) s.input_requests;
    task_messages = keep (λ m. still_there left m.execution_id) s.task_messages;
  })

abbrev pub in_project : Option Key → Task → Bool
in_project none t = true
in_project (some p) t = elim t.project_id [ none ↦ false | some q ↦ q == p ]

-- `listTasks`
unfoldable pub list_tasks : Option Key → Store → List Task
list_tasks project_id s = newest_first (λ t. t.created_at) (keep (in_project project_id) s.tasks)
