-- ===== src/Orchestrator/QueueManager.antt =====
-- packages/orchestrator/src/queue-manager.ts
use baara_next.Base.{ℕ, ◌+◌, List, [], ◌∷◌, ◌++◌, false, Option, none, some, if◌then◌else◌, remove}
use baara_next.Core.Status.{ExecutionStatus, queued, retry_scheduled, same_status}
use baara_next.Core.Types.{Key, Execution, no_updates}
use baara_next.Core.Errors.{ok}
use baara_next.Store.{get_execution}
use baara_next.Store.Executions.{create_execution, update_execution_status, dequeue_execution}
use baara_next.Orchestrator.World.{
  Timer, Platform, Action, done, gets, look, ◌>>=◌, ◌>>◌, on_store, swallow, seconds, random_uuid,
}
use baara_next.Orchestrator.EventHandler.{emit_retry_started}

-- `enqueue`: the execution is already in the store, so only the event is emitted.
unfoldable pub enqueue : (queue_name : Key) → Action (Unit {0})
enqueue queue_name w = (ok tt, record w { available = queue_name ∷ w.available })

-- `dequeue`
unfoldable pub dequeue : (queue_name : Key) → Action (Option Execution)
dequeue queue_name w =
    let (found, s) = dequeue_execution queue_name w.store in (ok found, record w { store = s })

-- `cancelTimer`
unfoldable pub cancel_timer : (execution_id : Key) → Action (Unit {0})
cancel_timer execution_id w =
    (ok tt, record w { timers = remove (λ t. t.execution_id) execution_id w.timers })

abbrev pub add_timer : Timer → Action (Unit {0})
add_timer t w = (ok tt, record w { timers = w.timers ++ t ∷ [] })

-- `enqueueTimer`
unfoldable pub enqueue_timer : (execution_id : Key) (delay_ms next_attempt : ℕ) → Action (Unit {0})
unfolding cancel_timer
enqueue_timer execution_id delay_ms next_attempt = do
  cancel_timer execution_id
  now ← gets (λ w. w.now)
  add_timer (record {
    execution_id = execution_id;
    fire_at = now + delay_ms;
    next_attempt = next_attempt;
  })

-- `cancelAllTimers`, which also ends the interval of the visibility batches.
unfoldable pub cancel_all_timers : Action (Unit {0})
cancel_all_timers w = (ok tt, record w { timers = []; flushing = false })

-- `enqueueVisibility`
unfoldable pub enqueue_visibility : (execution_id : Key) → ExecutionStatus → Action (Unit {0})
enqueue_visibility execution_id status w =
    (ok tt, record w { visibility_buffer = w.visibility_buffer ++ (execution_id, status) ∷ [] })

-- `flushVisibility`: the batch that is emitted, none for an empty buffer.
unfoldable pub flush_visibility : Action (Option (List (Key × ExecutionStatus)))
flush_visibility w = elim w.visibility_buffer [
  | [] ↦ (ok none, w)
  | x ∷ rest ↦ (ok (some (x ∷ rest)), record w { visibility_buffer = [] })
]

module _ (p : Platform) where
  -- The new attempt that `_fireTimer` makes for an execution whose delay is over.
  unfoldable pub start_retry : Execution → (next_attempt : ℕ) → Action (Unit {0})
  unfolding enqueue
  start_retry e next_attempt = do
    new_id ← random_uuid p
    now ← gets (λ w. w.now)
    stamp ← gets seconds
    on_store (create_execution new_id e.task_id e.queue_name e.priority now next_attempt stamp)
    on_store (update_execution_status new_id queued no_updates)
    emit_retry_started p new_id next_attempt
    enqueue e.queue_name

  abbrev pub retry_if_scheduled : Option Execution → (next_attempt : ℕ) → Action (Unit {0})
  retry_if_scheduled none next_attempt = done
  retry_if_scheduled (some e) next_attempt =
      if same_status e.status retry_scheduled then start_retry e next_attempt else done

  -- The callback of a timer: it drops the handle and runs `_fireTimer`, which logs what it catches.
  unfoldable pub fire_timer : Timer → Action (Unit {0})
  unfolding cancel_timer start_retry
  fire_timer t = do
    cancel_timer t.execution_id
    execution ← look (get_execution t.execution_id)
    swallow (retry_if_scheduled execution t.next_attempt)
