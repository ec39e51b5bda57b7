-- ===== src/Mcp/Replies.antt =====
-- packages/mcp/src/helpers.ts: the replies of a tool, and the task that a caller means.
use baara_next.Base.{Option, none, some, or_else, codes, ◌++◌}
use baara_next.Core.Errors.{Result, ok, err}
use baara_next.Core.Types.{Key, Text, Task}
use baara_next.Store.{Store, get_task, get_task_by_name}
use baara_next.Orchestrator.World.{Platform, Action, pure, look, ◌>>=◌}

-- `ok(data)` and `err(message)`
pub data ToolReply {ℓ} (A : Type ℓ) : Type ℓ where
  content : A → ToolReply A
  failure : (message : Text) → ToolReply A

-- `resolveTask`
abbrev pub resolve_task : (name_or_id : Key) → Store → Option Task
resolve_task name_or_id s = or_else (get_task_by_name name_or_id s) (get_task name_or_id s)

module _ (p : Platform) {A : Type 0} where
  -- `notFound`
  abbrev pub not_found : (name_or_id : Key) → ToolReply A
  not_found name_or_id = failure (codes "Task not found: " ++ p.key_text name_or_id)

  abbrev pub absent_execution : (execution_id : Key) → ToolReply A
  absent_execution execution_id = failure (codes "Execution not found: " ++ p.key_text execution_id)

  abbrev pub replied : (prefix : Text) → Result A → ToolReply A
  replied prefix (ok a) = content a
  replied prefix (err e) = failure (prefix ++ p.error_text e)

  -- `try { … return ok(a); } catch (e) { return err(…); }`; what was written stays written.
  abbrev pub attempt : (prefix : Text) → Action A → Action (ToolReply A)
  attempt prefix m w = (ok (replied prefix (m w).0), (m w).1)

  abbrev pub on_task : (Task → Action (ToolReply A)) → Key → Option Task → Action (ToolReply A)
  on_task f name_or_id none = pure (not_found name_or_id)
  on_task f name_or_id (some task) = f task

  -- `const task = resolveTask(store, nameOrId); if (!task) return notFound(nameOrId);`
  abbrev pub with_task : (Task → Action (ToolReply A)) → Key → Action (ToolReply A)
  with_task f name_or_id = do task ← look (resolve_task name_or_id); on_task f name_or_id task
