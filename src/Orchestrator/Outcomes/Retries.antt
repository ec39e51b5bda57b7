-- ===== src/Orchestrator/Outcomes/Retries.antt =====
-- The new attempts of packages/orchestrator: `retryExecution` of src/orchestrator-service.ts, and the
-- timers of src/queue-manager.ts.
use baara_next.Base.{ℕ, suc, ◌+◌, ◌≡◌, refl, ◌∙◌, true, some, arith, is_some, remove, ap}
use baara_next.Core.Status.{queued, retry_scheduled, same_status}
use baara_next.Core.Errors.{ok}
use baara_next.Core.Types.{Key, Task, Execution, no_updates}
use baara_next.Store.{get_execution, get_task}
use baara_next.Store.Executions.{create_execution, new_execution}
use baara_next.Orchestrator.World.{
  World, Timer, Platform, effects, random_uuid, seconds, gets, on_store, stored,
}
use baara_next.Orchestrator.QueueManager.{fire_timer, start_retry, cancel_timer}
use baara_next.Orchestrator.Service.Submit.{
  retry_execution, is_retryable, find_task, submit_attempt,
}
use baara_next.Orchestrator.Outcomes.Runs.{Runs, bind-Runs, step-Runs}
use baara_next.Orchestrator.Outcomes.Tracked.{IsFresh, Tracked, emit-Runs, move-Runs}
use baara_next.Orchestrator.Outcomes.Steps.{enqueue-Runs}
use baara_next.Orchestrator.Outcomes.Submission.{
  IsQueued, submit_attempt-Runs, found_task, made-Tracked, with_made, create_execution_ok,
  may_queue,
}

module _ (p : Platform) (one_to_one : (m n : ℕ) → p.uuid m ≡ p.uuid n → m ≡ n) where
  retries :
      (w : World) (id : Key) (old : Execution) (task : Task)
      → get_execution id w.store ≡ some old
      → is_retryable old.status ≡ true
      → find_task old.task_id w.store ≡ some task
      → retry_execution p id w ≡ submit_attempt p task (old.attempt + 1) w
  unfolding retry_execution effects
  retries w id old task found may owned = rw (found, may, owned) refl

  -- Where the ids to come are new and all different, the retry of a failed, timed out or
  -- dead-lettered execution of a task that is there returns: the caller gets the next attempt of
  -- the task with a new id, which is in the store and queued.
  pub retry_execution_queues :
      (w : World) (id : Key) (old : Execution) (task : Task)
      → IsFresh p w
      → get_execution id w.store ≡ some old
      → is_retryable old.status ≡ true
      → find_task old.task_id w.store ≡ some task
      → (e : Execution) × (v : World) × (retry_execution p id w ≡ (ok e, v))
        × IsQueued p one_to_one w task (old.attempt + 1) e v
  retry_execution_queues w id old task fresh found may owned =
      let there = found_task p one_to_one old.task_id w.store task owned in
      let run = submit_attempt-Runs p one_to_one w task (old.attempt + 1) fresh there in
      (run.value, run.after, retries w id old task found may owned ∙ run.returns, run.holds)

  -- The attempt that a timer makes of an execution.
  abbrev pub next_of : World → Execution → (attempt : ℕ) → Execution
  next_of w old attempt =
      new_execution (p.uuid w.drawn) old.task_id old.queue_name old.priority w.now attempt
        (seconds w)

  create_next :
      (w : World) (old : Execution) (attempt : ℕ)
      → IsFresh p w
      → is_some (get_task old.task_id w.store) ≡ true
      → on_store
          (create_execution
            (p.uuid w.drawn)
            old.task_id
            old.queue_name
            old.priority
            w.now
            attempt
            (seconds w))
          (record w { drawn = suc w.drawn })
        ≡ (ok tt, with_made p one_to_one w (next_of w old attempt))
  unfolding on_store stored
  create_next w old attempt fresh there =
      rw
        (create_execution_ok (p.uuid w.drawn) old.task_id old.queue_name old.priority w.now attempt
          (seconds w) w.store (fresh.no_execution w.drawn (omega arith)) there)
        refl

  start_retry-Runs :
      (w : World) (old : Execution) (attempt : ℕ)
      → IsFresh p w
      → is_some (get_task old.task_id w.store) ≡ true
      → Runs
          (start_retry p old attempt)
          w
          (λ _ v. Tracked p w (next_of w old attempt) w.timers queued v)
  unfolding start_retry random_uuid gets
  start_retry-Runs w old attempt fresh there =
      let e = next_of w old attempt in
      let t = made-Tracked p one_to_one w e fresh refl refl in
      step-Runs _ _ refl (
        step-Runs _ _ refl (
          step-Runs _ _ refl (
            step-Runs _ _ (create_next w old attempt fresh there) (
              bind-Runs (move-Runs p one_to_one w e queued no_updates may_queue t) (λ _ w₁ t₁.
                bind-Runs (emit-Runs p one_to_one w e _ t₁)
                  (λ _ w₂ t₂. enqueue-Runs p w e _ t₂))))))

  -- The world after a timer has dropped its handle.
  abbrev pub without_timer : Timer → World → World
  without_timer t w = record w { timers = remove (λ x. x.execution_id) t.execution_id w.timers }

  fires :
      (w : World) (t : Timer) (old : Execution)
      → get_execution t.execution_id w.store ≡ some old
      → same_status old.status retry_scheduled ≡ true
      → fire_timer p t w ≡ (ok tt, (start_retry p old t.next_attempt (without_timer t w)).1)
  unfolding fire_timer cancel_timer effects
  fires w t old found due = rw (found, due) refl

  -- Where the ids to come are new and all different, a timer that fires for an execution that
  -- waits for a retry, and whose task is there, drops its handle and makes the next attempt of
  -- the task under a new id, which is in the store and queued.
  pub fire_timer_queues :
      (w : World) (t : Timer) (old : Execution)
      → IsFresh p w
      → get_execution t.execution_id w.store ≡ some old
      → old.status ≡ retry_scheduled
      → is_some (get_task old.task_id w.store) ≡ true
      → (v : World) × (e : Execution) × (fire_timer p t w ≡ (ok tt, v))
        × (get_execution (p.uuid w.drawn) v.store ≡ some e)
        × (e.status ≡ queued)
        × (e.task_id ≡ old.task_id)
        × (e.attempt ≡ t.next_attempt)
        × (v.timers ≡ remove (λ x. x.execution_id) t.execution_id w.timers)
  fire_timer_queues w t old fresh found at there =
      let start = without_timer t w in
      let fresh' : IsFresh p start = record {
        no_event = fresh.no_event;
        no_execution = fresh.no_execution;
      } in
      let run = start_retry-Runs start old t.next_attempt fresh' there in
      let end = run.holds in
      let due : same_status old.status retry_scheduled ≡ true = ground arith in
      (
        run.after,
        end.row,
        fires w t old found due ∙ ap (λ r. (ok tt, r.1)) run.returns,
        end.found,
        end.at_status,
        end.same_task,
        end.same_attempt,
        end.same_timers,
      )
