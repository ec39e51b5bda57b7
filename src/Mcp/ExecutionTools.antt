-- ===== src/Mcp/ExecutionTools.antt =====
-- packages/mcp/src/tools/executions.ts but for the logs, and packages/mcp/src/tools/hitl.ts.
use baara_next.Base.{
  ℕ, List, Option, none, some, map, keep, length, codes, Bool, true, false, [], ◌∷◌,
}
use baara_next.Core.Status.{ExecutionStatus, running, queued, failed}
use baara_next.Core.Types.{Key, Text, Execution, InputRequest}
use baara_next.Core.Events.{Event}
use baara_next.Store.{get_execution}
use baara_next.Store.Executions.{
  list_executions, count_executions_by_status, get_dead_lettered_executions,
  get_pending_input_executions,
}
use baara_next.Store.Events.{list_events}
use baara_next.Store.Inputs.{get_input_request}
use baara_next.Store.Tasks.{list_tasks}
use baara_next.Store.Queues.{QueueInfo, list_queues}
use baara_next.Orchestrator.World.{Platform, Action, pure, look, ◌>>=◌}
use baara_next.Orchestrator.Service.Run.{Registries, run_direct}
use baara_next.Orchestrator.Service.Submit.{submit_task, cancel_execution, retry_execution}
use baara_next.Orchestrator.Service.Input.{provide_input}
use baara_next.Mcp.Replies.{ToolReply, content, attempt, with_task, absent_execution}

pub record SystemStatus : Type 0 where
  pub tasks_total : ℕ
  pub tasks_enabled : ℕ
  pub tasks_with_cron : ℕ
  pub queues : List QueueInfo
  pub running_count : ℕ
  pub queued_count : ℕ
  pub failed_count : ℕ
  pub dead_lettered_count : ℕ
  pub pending_input_count : ℕ

-- A cron expression that is there and not empty.
abbrev pub has_cron : Option Text → Bool
has_cron none = false
has_cron (some []) = false
has_cron (some (c ∷ cs)) = true

-- `get_system_status`
unfoldable pub get_system_status : Action SystemStatus
get_system_status = look (λ s. record {
  tasks_total = length (list_tasks none s);
  tasks_enabled = length (keep (λ t. t.enabled) (list_tasks none s));
  tasks_with_cron = length (keep (λ t. has_cron t.cron_expression) (list_tasks none s));
  queues = list_queues s;
  running_count = count_executions_by_status running s;
  queued_count = count_executions_by_status queued s;
  failed_count = count_executions_by_status failed s;
  dead_lettered_count = length (get_dead_lettered_executions s);
  pending_input_count = length (get_pending_input_executions s);
})

-- `list_pending_input`: each execution with the request that it waits for.
unfoldable pub list_pending_input : Action (List (Execution × Option InputRequest))
list_pending_input =
    look
      (λ s. map (λ (e : Execution). (e, get_input_request e.id s)) (get_pending_input_executions s))

module _ (p : Platform) where
  -- `run_task`
  unfoldable pub run_task_tool : Registries → (name_or_id : Key) → Action (ToolReply Execution)
  run_task_tool registries =
      with_task p (λ task. attempt p (codes "Execution failed: ") (run_direct p registries task.id))

  -- `submit_task`
  unfoldable pub submit_task_tool : (name_or_id : Key) → Action (ToolReply Execution)
  submit_task_tool =
      with_task p (λ task. attempt p (codes "Submit failed: ") (submit_task p task.id))

  -- `list_executions`
  unfoldable pub list_executions_tool :
      Option ExecutionStatus → Option ℕ → (name_or_id : Key) → Action (ToolReply (List Execution))
  list_executions_tool status limit = with_task p (λ task. do
    executions ← look (list_executions task.id status limit)
    pure (content executions))

  abbrev pub found_execution : Key → Option Execution → ToolReply Execution
  found_execution id none = absent_execution p id
  found_execution id (some e) = content e

  -- `get_execution`
  unfoldable pub get_execution_tool : (execution_id : Key) → Action (ToolReply Execution)
  get_execution_tool id = do
    execution ← look (get_execution id)
    pure (found_execution id execution)

  abbrev pub events_of :
      Key → Option ℕ → Option ℕ → Option Execution → Action (ToolReply (List Event))
  events_of id after_seq limit none = pure (absent_execution p id)
  events_of id after_seq limit (some e) = do
    events ← look (list_events id after_seq limit)
    pure (content events)

  -- `get_execution_events`
  unfoldable pub get_execution_events_tool :
      (execution_id : Key) → (after_seq limit : Option ℕ) → Action (ToolReply (List Event))
  get_execution_events_tool id after_seq limit = do
    execution ← look (get_execution id)
    events_of id after_seq limit execution

  -- `cancel_execution`
  unfoldable pub cancel_execution_tool : (execution_id : Key) → Action (ToolReply (Unit {0}))
  cancel_execution_tool id = attempt p (codes "Cancel failed: ") (cancel_execution p id)

  -- `retry_execution`
  unfoldable pub retry_execution_tool : (execution_id : Key) → Action (ToolReply Execution)
  retry_execution_tool id = attempt p (codes "Retry failed: ") (retry_execution p id)

  -- `provide_input`
  unfoldable pub provide_input_tool : (execution_id : Key) → Text → Action (ToolReply (Unit {0}))
  provide_input_tool id response =
      attempt p (codes "Failed to provide input: ") (provide_input p id response)
