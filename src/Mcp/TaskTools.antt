-- ===== src/Mcp/TaskTools.antt =====
-- packages/mcp/src/tools/tasks.ts but for `create_task`.
use baara_next.Base.{List, Option, none, some, not, codes, get_or}
use baara_next.Core.Errors.{task_not_found}
use baara_next.Core.Types.{Key, Task, TaskInput, AgentConfig}
use baara_next.Store.{get_task}
use baara_next.Store.Tasks.{list_tasks, delete_task, update_task}
use baara_next.Orchestrator.World.{
  Platform, Action, pure, look, need, gets, seconds, on_store, ◌>>=◌, ◌>>◌,
}
use baara_next.Orchestrator.TaskManager.{nothing}
use baara_next.Mcp.Replies.{ToolReply, content, attempt, with_task}

-- `list_tasks`
unfoldable pub list_tasks_tool : Action (List Task)
list_tasks_tool = look (list_tasks none)

-- `{}`
abbrev pub empty_config : AgentConfig
empty_config = record {
  model = none;
  allowed_tools = none;
  max_turns = none;
  budget_usd = none;
  permission_mode = none;
  system_prompt = none;
  mcp_servers = none;
}

-- `store.updateTask` with the row that it returns.
abbrev pub updated_task : Key → TaskInput → Action Task
updated_task id input = do
  stamp ← gets seconds
  on_store (update_task id input stamp)
  need (get_task id) (task_not_found id)

module _ (p : Platform) where
  -- `get_task`
  unfoldable pub get_task_tool : (name_or_id : Key) → Action (ToolReply Task)
  get_task_tool = with_task p (λ task. pure (content task))

  -- The changes of `update_task`: tools that are given go into the configuration of the task.
  abbrev pub patch_of : TaskInput → Option (List Key) → Task → TaskInput
  patch_of updates none task = record updates { agent_config = none }
  patch_of updates (some tools) task = record updates {
    agent_config =
        some (some (record (get_or task.agent_config empty_config) { allowed_tools = some tools }));
  }

  -- `update_task`
  unfoldable pub update_task_tool :
      TaskInput → (allowed_tools : Option (List Key)) → (name_or_id : Key) → Action (ToolReply Task)
  update_task_tool updates tools = with_task p (λ task.
      attempt p (codes "Failed to update task: ")
        (updated_task task.id (patch_of updates tools task)))

  -- `delete_task`
  unfoldable pub delete_task_tool : (name_or_id : Key) → Action (ToolReply Task)
  delete_task_tool = with_task p (λ task. do on_store (delete_task task.id); pure (content task))

  -- `toggle_task`
  unfoldable pub toggle_task_tool : (name_or_id : Key) → Action (ToolReply Task)
  toggle_task_tool = with_task p (λ task. do
    updated ← updated_task task.id (record nothing { enabled = some (not task.enabled) })
    pure (content updated))
