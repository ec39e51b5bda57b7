-- ===== src/Orchestrator/Service/Submit.antt =====
-- `submitTask`, `cancelExecution` and `retryExecution` of
-- packages/orchestrator/src/orchestrator-service.ts.
use baara_next.Base.{ℕ, ◌+◌, Bool, not, ◌||◌, Option, some, or_else, codes}
use baara_next.Core.Status.{
  ExecutionStatus, queued, cancelled, failed, timed_out, dead_lettered, retry_scheduled,
  is_terminal, same_status,
}
use baara_next.Core.Types.{Key, Text, Task, Execution, no_updates}
use baara_next.Core.Errors.{task_not_found, execution_not_found, invalid_state_transition, other}
use baara_next.Store.{Store, get_task, get_task_by_name, get_execution}
use baara_next.Store.Executions.{create_execution, update_execution_status}
use baara_next.Orchestrator.World.{
  Platform, Action, throw, gets, need, when, ◌>>=◌, ◌>>◌, on_store, seconds, random_uuid,
}
use baara_next.Orchestrator.EventHandler.{
  emit_execution_created, emit_execution_queued, emit_execution_cancelled,
}
use baara_next.Orchestrator.QueueManager.{enqueue, cancel_timer, enqueue_visibility}

-- The lookup of `_requireTask`: by id, then by name.
abbrev pub find_task : (task_id_or_name : Key) → Store → Option Task
find_task k s = or_else (get_task k s) (get_task_by_name k s)

-- `_requireTask`
abbrev pub require_task : (task_id_or_name : Key) → Action Task
require_task k = need (find_task k) (task_not_found k)

unfoldable pub operator_requested : Text
operator_requested = codes "operator requested cancellation"

-- `retryable.includes`
abbrev pub is_retryable : ExecutionStatus → Bool
is_retryable s = same_status s failed || same_status s timed_out || same_status s dead_lettered

module _ (p : Platform) where
  -- What `submitTask` and `retryExecution` do alike: a new execution that goes to its queue.
  unfoldable pub submit_attempt : Task → (attempt : ℕ) → Action Execution
  submit_attempt task attempt = do
    id ← random_uuid p
    now ← gets (λ w. w.now)
    stamp ← gets seconds
    on_store (create_execution id task.id task.target_queue task.priority now attempt stamp)
    on_store (update_execution_status id queued no_updates)
    emit_execution_created p id task.id task.target_queue attempt
    emit_execution_queued p id task.target_queue
    enqueue task.target_queue
    need (get_execution id) other

  -- `submitTask`
  unfoldable pub submit_task : (task_id : Key) → Action Execution
  unfolding submit_attempt
  submit_task task_id = do task ← require_task task_id; submit_attempt task 1

  -- `cancelExecution`
  unfoldable pub cancel_execution : (execution_id : Key) → Action (Unit {0})
  cancel_execution execution_id = do
    execution ← need (get_execution execution_id) (execution_not_found execution_id)
    when (is_terminal execution.status)
        (throw (invalid_state_transition execution.status cancelled execution_id))
    cancel_timer execution_id
    on_store (update_execution_status execution_id cancelled no_updates)
    emit_execution_cancelled p execution_id (some operator_requested)
    enqueue_visibility execution_id cancelled

  -- `retryExecution`
  unfoldable pub retry_execution : (execution_id : Key) → Action Execution
  unfolding submit_attempt
  retry_execution execution_id = do
    execution ← need (get_execution execution_id) (execution_not_found execution_id)
    when (not (is_retryable execution.status))
        (throw (invalid_state_transition execution.status retry_scheduled execution_id))
    task ← require_task execution.task_id
    submit_attempt task (execution.attempt + 1)
