-- ===== src/Orchestrator/Service/Recover.antt =====
-- `recoverExecution` of packages/orchestrator/src/orchestrator-service.ts.
use baara_next.Base.{◌+◌, Bool, ◌||◌, Option, none, some, if◌then◌else◌, ltb, codes}
use baara_next.Core.Status.{
  ExecutionStatus, queued, assigned, running, failed, retry_scheduled, same_status,
}
use baara_next.Core.Types.{
  Key, Text, Task, Execution, TaskMessage, no_updates, outbound, checkpoint_type,
}
use baara_next.Core.Errors.{other}
use baara_next.Store.{get_task, get_execution}
use baara_next.Store.Executions.{create_execution, update_execution_status, update_execution_fields}
use baara_next.Store.Messages.{read_latest_message}
use baara_next.Orchestrator.World.{
  Platform, Action, pure, done, gets, look, need, or_throw, ◌>>=◌, ◌>>◌, on_store, seconds,
  random_uuid,
}
use baara_next.Orchestrator.EventHandler.{emit_execution_created, emit_execution_queued}
use baara_next.Orchestrator.QueueManager.{enqueue}
use baara_next.Orchestrator.Retry.{route_to_dlq}

unfoldable pub max_retries_exceeded : Text
max_retries_exceeded = codes "Max retries exceeded during crash recovery"

unfoldable pub recovered_from_crash : Text
recovered_from_crash = codes "Recovered from crash by health monitor"

-- `execution.status !== "running" && execution.status !== "assigned"`, negated.
abbrev pub is_in_flight : ExecutionStatus → Bool
is_in_flight s = same_status s running || same_status s assigned

module _ (p : Platform) (has_message_bus : Bool) where
  -- `routeToDlq` after the two steps that the state machine wants.
  unfoldable pub give_up : Execution → Action (Unit {0})
  give_up e = do
    now ← gets (λ w. w.now)
    on_store (
        update_execution_status e.id failed (record no_updates {
          error = some (some max_retries_exceeded);
          completed_at = some (some now);
        }))
    updated ← need (get_execution e.id) other
    route_to_dlq p updated

  -- `readLatestCheckpoint`, and the text of what it returns.
  abbrev pub latest_checkpoint : Option TaskMessage → Action (Option Text)
  latest_checkpoint none = pure none
  latest_checkpoint (some m) = do text ← or_throw (p.reencode m.payload) other; pure (some text)

  abbrev pub read_checkpoint : (execution_id : Key) → Action (Option Text)
  read_checkpoint execution_id = do
    m ← look (read_latest_message execution_id outbound checkpoint_type)
    if has_message_bus then latest_checkpoint m else pure none

  abbrev pub keep_checkpoint : (execution_id : Key) → Option Text → Action (Unit {0})
  keep_checkpoint execution_id none = done
  keep_checkpoint execution_id (some text) =
      on_store (update_execution_fields execution_id none none (some (some text)))

  -- A new attempt that carries the checkpoint on.
  unfoldable pub resume : Execution → Task → Action (Unit {0})
  resume e task = do
    now ← gets (λ w. w.now)
    stamp ← gets seconds
    let next_attempt = e.attempt + 1
    on_store (
        update_execution_status e.id retry_scheduled (record no_updates {
          error = some (some recovered_from_crash);
          completed_at = some (some now);
        }))
    checkpoint ← read_checkpoint e.id
    new_id ← random_uuid p
    on_store
        (create_execution new_id task.id task.target_queue task.priority now next_attempt stamp)
    keep_checkpoint new_id checkpoint
    on_store (update_execution_status new_id queued no_updates)
    enqueue task.target_queue
    emit_execution_created p new_id task.id task.target_queue next_attempt
    emit_execution_queued p new_id task.target_queue

  abbrev pub recover_for : Execution → Option Task → Action (Unit {0})
  recover_for e none = done
  recover_for e (some task) =
      if ltb (task.max_retries + 1) (e.attempt + 1) then give_up e else resume e task

  abbrev pub recover_found : Option Execution → Action (Unit {0})
  recover_found none = done
  recover_found (some e) =
      if is_in_flight e.status then look (get_task e.task_id) >>= recover_for e else done

  -- `recoverExecution`
  unfoldable pub recover_execution : (execution_id : Key) → Action (Unit {0})
  unfolding give_up resume
  recover_execution execution_id = do
    execution ← look (get_execution execution_id)
    recover_found execution
