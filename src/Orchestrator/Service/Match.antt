-- ===== src/Orchestrator/Service/Match.antt =====
-- `matchTask`, `startExecution` and `heartbeat` of
-- packages/orchestrator/src/orchestrator-service.ts.
use baara_next.Base.{
  ℕ, List, [], ◌∷◌, Bool, not, ◌&&◌, Option, none, some, ◌==◌, keep, map, codes, ◌++◌,
}
use baara_next.Core.Status.{assigned, running, failed, same_status}
use baara_next.Core.Types.{Key, Task, Execution, no_updates, visibility_queue, dlq_queue, healthy}
use baara_next.Core.Errors.{execution_not_found, invalid_state_transition}
use baara_next.Store.{get_task, get_execution}
use baara_next.Store.Executions.{update_execution_status, update_execution_fields}
use baara_next.Store.Queues.{QueueInfo, list_queues}
use baara_next.Orchestrator.World.{
  Platform, Action, pure, throw, done, gets, look, need, when, ◌>>=◌, ◌>>◌, on_store,
}
use baara_next.Orchestrator.EventHandler.{emit_execution_assigned, emit_execution_started}
use baara_next.Orchestrator.QueueManager.{dequeue, enqueue_visibility}

pub record TaskAssignment : Type 0 where
  pub execution_id : Key
  pub task : Task
  pub attempt : ℕ

-- `q.name !== "visibility" && q.name !== "dlq"`
abbrev pub is_polled : QueueInfo → Bool
is_polled q = not (q.name == visibility_queue) && not (q.name == dlq_queue)

module _ (p : Platform) where
  -- The branch for an execution whose task is gone.
  unfoldable pub fail_orphan : Execution → Action (Unit {0})
  fail_orphan e = do
    on_store (update_execution_status e.id running no_updates)
    now ← gets (λ w. w.now)
    on_store (
        update_execution_status e.id failed (record no_updates {
          error = some (some (codes "Task " ++ (p.key_text e.task_id ++ codes " not found")));
          completed_at = some (some now);
        }))

  unfoldable pub hand_out : (agent_id : Key) → Execution → Task → Action (Option TaskAssignment)
  hand_out agent_id e task = do
    emit_execution_assigned p e.id agent_id
    pure (some (record { execution_id = e.id; task = task; attempt = e.attempt }))

  -- What becomes of a dequeued execution; `rest` is the loop over the queues that are left.
  abbrev pub assign_to :
      (agent_id : Key)
      → Action (Option TaskAssignment)
      → Execution
      → Option Task
      → Action (Option TaskAssignment)
  assign_to agent_id rest e none = fail_orphan e >> rest
  assign_to agent_id rest e (some task) = hand_out agent_id e task

  abbrev pub take_found :
      (agent_id : Key)
      → Action (Option TaskAssignment)
      → Option Execution
      → Action (Option TaskAssignment)
  take_found agent_id rest none = rest
  take_found agent_id rest (some e) = look (get_task e.task_id) >>= assign_to agent_id rest e

  -- The loop over the names of the queues.
  unfoldable pub poll : (agent_id : Key) → List Key → Action (Option TaskAssignment)
  unfolding dequeue fail_orphan hand_out
  poll agent_id [] = pure none
  poll agent_id (name ∷ names) = dequeue name >>= take_found agent_id (poll agent_id names)

  -- `matchTask`
  unfoldable pub match_task : (agent_id : Key) → Action (Option TaskAssignment)
  unfolding poll
  match_task agent_id = do
    queues ← look list_queues
    poll agent_id (map (λ (q : QueueInfo). q.name) (keep is_polled queues))

  -- `startExecution`
  unfoldable pub start_execution : (execution_id : Key) → Action (Unit {0})
  start_execution execution_id = do
    execution ← need (get_execution execution_id) (execution_not_found execution_id)
    when (not (same_status execution.status assigned))
        (throw (invalid_state_transition execution.status running execution_id))
    now ← gets (λ w. w.now)
    on_store (
        update_execution_status execution_id running
          (record no_updates { started_at = some (some now) }))
    emit_execution_started p execution_id
    enqueue_visibility execution_id running

abbrev pub beat : Option Execution → (execution_id : Key) (turn_count : ℕ) → Action (Unit {0})
beat none execution_id turn_count = done
beat (some e) execution_id turn_count =
    on_store (update_execution_fields execution_id (some turn_count) (some healthy) none)

-- `heartbeat`
unfoldable pub heartbeat : (execution_id : Key) (turn_count : ℕ) → Action (Unit {0})
heartbeat execution_id turn_count = do
  execution ← look (get_execution execution_id)
  beat execution execution_id turn_count
