-- ===== src/Mcp/QueueTools.antt =====
-- packages/mcp/src/tools/queues.ts
use baara_next.Base.{List, Option, none, some, codes, ◌++◌}
use baara_next.Core.Types.{Key, Execution}
use baara_next.Store.Executions.{get_dead_lettered_executions}
use baara_next.Store.Queues.{QueueInfo, list_queues, get_queue_info}
use baara_next.Orchestrator.World.{Platform, Action, pure, look, ◌>>=◌}
use baara_next.Orchestrator.Service.Submit.{retry_execution}
use baara_next.Mcp.Replies.{ToolReply, content, failure, attempt}

-- `list_queues`
unfoldable pub list_queues_tool : Action (List QueueInfo)
list_queues_tool = look list_queues

-- `dlq_list`
unfoldable pub dlq_list : Action (List Execution)
dlq_list = look get_dead_lettered_executions

module _ (p : Platform) where
  abbrev pub found_queue : Key → Option QueueInfo → ToolReply QueueInfo
  found_queue name none = failure (codes "Queue not found: " ++ p.key_text name)
  found_queue name (some q) = content q

  -- `get_queue_info`
  unfoldable pub get_queue_info_tool : Key → Action (ToolReply QueueInfo)
  get_queue_info_tool name = do queue ← look (get_queue_info name); pure (found_queue name queue)

  -- `dlq_retry`
  unfoldable pub dlq_retry : (execution_id : Key) → Action (ToolReply Execution)
  dlq_retry id = attempt p (codes "DLQ retry failed: ") (retry_execution p id)
