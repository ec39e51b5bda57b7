-- ===== src/Orchestrator/Outcomes/Completion.antt =====
-- How `handleExecutionComplete` of packages/orchestrator/src/orchestrator-service.ts ends.
use baara_next.Base.{
  ℕ, ◌≡◌, ◌≢◌, ◌≤◌, ◌<◌, ◌+◌, ◌-◌, ◌*◌, ◌^◌, min, refl, sym, ◌∙◌, Bool, true, false, some, [], ◌∷◌,
  ◌++◌, arith, update, remove, ◌⊎◌, inl, inr,
}
use baara_next.Core.Status.{
  ExecutionStatus, running, waiting_for_input, same_status, completed, cancelled, retry_scheduled,
  dead_lettered,
}
use baara_next.Core.Errors.{ok, err, invalid_state_transition}
use baara_next.Core.Types.{Key, Task, Execution, ExecuteResult, ResultStatus, no_updates}
use baara_next.Store.{get_execution, get_task}
use baara_next.Store.Executions.{with_status}
use baara_next.Orchestrator.World.{World, Platform, effects}
use baara_next.Orchestrator.Retry.{should_retry, calculate_delay, default_retry_config, base_delay}
use baara_next.Orchestrator.Retry.Bounds.{calculate_delay-near}
use baara_next.Orchestrator.Service.Complete.{
  finish_with, handle_execution_complete, terminal_status,
}
use baara_next.Orchestrator.Outcomes.Tracked.{IsFresh, Tracked, update_execution_status_ok}
use baara_next.Orchestrator.Outcomes.Settling.{may_resume, finish_with-Runs, Ended, Settled}

-- A running execution goes to the second half at once.
completes_running :
    (p : Platform) (id : Key) (w : World) (e : Execution) (task : Task) (r : ExecuteResult)
    → get_execution id w.store ≡ some e
    → e.status ≡ running
    → get_task e.task_id w.store ≡ some task
    → handle_execution_complete p id r w ≡ finish_with p id (some task) e r w
unfolding handle_execution_complete effects
completes_running p id w e task r found at owned =
    let no : same_status e.status waiting_for_input ≡ false = ground arith in
    let yes : same_status e.status running ≡ true = ground arith in rw (found, no, yes, owned) refl

-- The report of a run whose execution waits for input is refused. The first statement moves the
-- execution to running, and the guard then asks the status that it had before: so the call throws,
-- and the execution stays running with the report lost.
pub handle_execution_complete_waiting :
    (p : Platform) (id : Key) (w : World) (e : Execution) (r : ExecuteResult)
    → get_execution id w.store ≡ some e
    → e.status ≡ waiting_for_input
    → handle_execution_complete p id r w ≡ (
      err (invalid_state_transition waiting_for_input (terminal_status r.status) id),
      record w {
        store = record w.store {
          executions = update (λ x. x.id) id (with_status running no_updates) w.store.executions;
        };
      },
    )
unfolding handle_execution_complete effects
handle_execution_complete_waiting p id w e r found at =
    let waits : same_status e.status waiting_for_input ≡ true = ground arith in
    let no : same_status e.status running ≡ false = ground arith in
    let moved =
      update_execution_status_ok id running no_updates w.store e found (may_resume e.status at) in
    rw (found, waits, no, moved) cc

-- How many attempts a task allows: a first one and, if it has retries at all, one more for each.
abbrev pub IsAllowed : (max_retries attempt : ℕ) → Type 0
IsAllowed max_retries attempt = (0 < max_retries) × (attempt ≤ max_retries + 1)

-- After a failure the next attempt is scheduled if it is allowed, and otherwise there is none.
abbrev pub FailsAs : (attempt max_retries : ℕ) → ExecutionStatus → Type 0
FailsAs attempt max_retries s =
    (IsAllowed max_retries (attempt + 1) × (s ≡ retry_scheduled))
    ⊎ ((¬ IsAllowed max_retries (attempt + 1)) × (s ≡ dead_lettered))

-- The status in which a finished run leaves its execution.
abbrev pub EndsAs : ResultStatus → (attempt max_retries : ℕ) → ExecutionStatus → Type 0
EndsAs ResultStatus.completed attempt max_retries s = s ≡ completed
EndsAs ResultStatus.cancelled attempt max_retries s = s ≡ cancelled
EndsAs ResultStatus.failed attempt max_retries s = FailsAs attempt max_retries s
EndsAs ResultStatus.timed_out attempt max_retries s = FailsAs attempt max_retries s

-- One second doubled for each attempt before this one, and at most a minute; up to ten percent more or
-- less, rounded.
abbrev pub IsBackoff : (attempt delay : ℕ) → Type 0
IsBackoff attempt delay =
    (9 * min (1000 * 2 ^ (attempt - 1)) 60000 < 10 * delay + 5)
    × (10 * delay ≤ 11 * min (1000 * 2 ^ (attempt - 1)) 60000 + 5)

-- A timer of its own for the next attempt, in place of one that the execution had.
abbrev pub BacksOff : World → Execution → World → Type 0
BacksOff w e v =
    (delay : ℕ) × IsBackoff e.attempt delay
    × (v.timers
        ≡ remove (λ x. x.execution_id) e.id w.timers
          ++ (record { execution_id = e.id; fire_at = w.now + delay; next_attempt = e.attempt + 1 })
            ∷ [])

-- What the end of a run leaves: the status, and a new timer if it is that of a retry.
abbrev pub IsSettled : World → Execution → Task → ResultStatus → World → Type 0
IsSettled w e task st v =
    (x : Execution) × (get_execution e.id v.store ≡ some x)
    × EndsAs st e.attempt task.max_retries x.status
    × (((x.status ≡ retry_scheduled) × BacksOff w e v)
        ⊎ ((x.status ≢ retry_scheduled) × (v.timers ≡ w.timers)))

should_retry-IsAllowed :
    (e : Execution) (task : Task)
    → should_retry e task ≡ true
    → IsAllowed task.max_retries (e.attempt + 1)
unfolding should_retry
should_retry-IsAllowed e task h = ground arith

no_retry-IsAllowed :
    (e : Execution) (task : Task)
    → should_retry e task ≡ false
    → ¬ IsAllowed task.max_retries (e.attempt + 1)
unfolding should_retry
no_retry-IsAllowed e task h = λ a. ground arith

other_status : (s t : ExecutionStatus) → t ≡ s → s ≢ retry_scheduled → t ≢ retry_scheduled
other_status s t same apart = λ h. apart (sym same ∙ h)

module _ (p : Platform) (one_to_one : (m n : ℕ) → p.uuid m ≡ p.uuid n → m ≡ n)
    (small : (n : ℕ) → p.random n < p.scale) where
  backoff :
      (attempt draw : ℕ)
      → IsBackoff attempt (calculate_delay attempt default_retry_config p.scale (p.random draw))
  unfolding base_delay
  backoff attempt draw =
      let (above, below, most) =
        calculate_delay-near attempt default_retry_config p.scale (p.random draw) (small draw) in
      (above, below)

  failed_settled :
      (w v : World) (e : Execution) (task : Task) (retry : Bool)
      → should_retry e task ≡ retry
      → Settled p one_to_one w e retry v
      → (x : Execution) × (get_execution e.id v.store ≡ some x)
        × FailsAs e.attempt task.max_retries x.status
        × (((x.status ≡ retry_scheduled) × BacksOff w e v)
            ⊎ ((x.status ≢ retry_scheduled) × (v.timers ≡ w.timers)))
  failed_settled w v e task true again (k, t) = (
    t.row,
    t.found,
    inl (should_retry-IsAllowed e task again, t.at_status),
    inl (t.at_status, (_, backoff e.attempt k, t.same_timers)),
  )
  failed_settled w v e task false over t = (
    t.row,
    t.found,
    inr (no_retry-IsAllowed e task over, t.at_status),
    inr (other_status dead_lettered t.row.status t.at_status (λ h. cc), t.same_timers),
  )

  settled :
      (w v : World) (e : Execution) (task : Task) (st : ResultStatus)
      → Ended p one_to_one w e st (should_retry e task) v
      → IsSettled w e task st v
  settled w v e task ResultStatus.completed t = (
    t.row,
    t.found,
    t.at_status,
    inr (other_status completed t.row.status t.at_status (λ h. cc), t.same_timers),
  )
  settled w v e task ResultStatus.cancelled t = (
    t.row,
    t.found,
    t.at_status,
    inr (other_status cancelled t.row.status t.at_status (λ h. cc), t.same_timers),
  )
  settled w v e task ResultStatus.failed t = failed_settled w v e task (should_retry e task) refl t
  settled w v e task ResultStatus.timed_out t =
      failed_settled w v e task (should_retry e task) refl t

  -- Where the ids to come are new and all different, and `Math.random` is below one, the report of a
  -- finished run returns for a running execution of a task that is there. It leaves the execution
  -- completed or cancelled as reported. After a failure or a timeout it leaves it waiting for a retry,
  -- with a timer for the next attempt, if the task has retries and the next attempt is at most one
  -- more than their number, and dead-lettered otherwise. The timer ends after one second doubled for
  -- each attempt before, at most a minute, within ten percent up to rounding. Without a retry the
  -- timers stay as they were.
  pub handle_execution_complete_settles :
      (w : World) (e : Execution) (task : Task) (r : ExecuteResult)
      → IsFresh p w
      → get_execution e.id w.store ≡ some e
      → e.status ≡ running
      → get_task e.task_id w.store ≡ some task
      → (v : World) × (handle_execution_complete p e.id r w ≡ (ok tt, v))
        × IsSettled w e task r.status v
  handle_execution_complete_settles w e task r fresh found at owned =
      let t : Tracked p w e w.timers running w = record {
        fresh = fresh;
        row = e;
        found = found;
        at_status = at;
        same_id = refl;
        same_attempt = refl;
        same_task = refl;
        same_tasks = refl;
        same_timers = refl;
        same_now = refl;
      } in
      let run = finish_with-Runs p one_to_one w e task r t in
      (
        run.after,
        completes_running p e.id w e task r found at owned ∙ run.returns,
        settled w run.after e task r.status run.holds,
      )
