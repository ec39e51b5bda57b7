-- ===== src/Tests/Outcomes.antt =====
-- How calls of the orchestrator end on a small world.
use baara_next.Base.{◌≡◌, [], ◌∷◌, false, some, refl, arith, ◌<◌, update}
use baara_next.Core.Status.{
  running, waiting_for_input, failed, retry_scheduled, assigned, queued, cancelled, can_transition,
}
use baara_next.Store.{get_execution}
use baara_next.Orchestrator.World.{Timer}
use baara_next.Orchestrator.QueueManager.{fire_timer}
use baara_next.Orchestrator.Service.Submit.{submit_task, retry_execution, cancel_execution}
use baara_next.Orchestrator.Outcomes.Submission.{IsQueued, submit_task_queues}
use baara_next.Orchestrator.Outcomes.Retries.{retry_execution_queues, fire_timer_queues}
use baara_next.Orchestrator.Outcomes.Changes.{Leaves, cancel_execution_cancels}
use baara_next.Core.Errors.{ok, err, invalid_state_transition}
use baara_next.Core.Types.{Execution, ResultStatus, no_updates}
use baara_next.Store.Executions.{with_status}
use baara_next.Orchestrator.World.{World}
use baara_next.Orchestrator.Service.Complete.{handle_execution_complete}
use baara_next.Orchestrator.Service.Recover.{recover_execution}
use baara_next.Orchestrator.Outcomes.Tracked.{IsFresh}
use baara_next.Orchestrator.Outcomes.Completion.{
  IsSettled, handle_execution_complete_settles, handle_execution_complete_waiting,
}
use baara_next.Orchestrator.Outcomes.Recovery.{recover_execution_refused}
use baara_next.Tests.Sample.{
  platform, uuid_one_to_one, random_small, report, attempt_of, world, failure,
}

world-IsFresh : IsFresh platform world
world-IsFresh = record { no_event = λ n le. ground arith; no_execution = λ n le. ground arith }

handle_execution_complete_settles_example :
    (v : World) × (handle_execution_complete platform 30 failure world ≡ (ok tt, v))
    × IsSettled world (attempt_of 30 running 1 6) report ResultStatus.failed v
handle_execution_complete_settles_example =
    handle_execution_complete_settles platform uuid_one_to_one random_small world
      (attempt_of 30 running 1 6) report failure world-IsFresh refl refl refl

handle_execution_complete_waiting_example : handle_execution_complete platform 31 failure world ≡ (
  err (invalid_state_transition waiting_for_input failed 31),
  record world {
    store = record world.store {
      executions = update (λ x. x.id) 31 (with_status running no_updates) world.store.executions;
    };
  },
)
handle_execution_complete_waiting_example =
    handle_execution_complete_waiting platform 31 world (attempt_of 31 waiting_for_input 1 6)
      failure refl refl

recover_execution_refused_example :
    recover_execution platform false 30 world
    ≡ (err (invalid_state_transition running retry_scheduled 30), world)
recover_execution_refused_example =
    recover_execution_refused platform false 30 world (attempt_of 30 running 1 6) report refl refl
      refl (omega arith)

-- The world with one more execution.
abbrev beside : Execution → World
beside e = record world { store = record world.store { executions = e ∷ world.store.executions } }

abbrev claimed : Execution
claimed = attempt_of 35 assigned 1 6

abbrev retried : Execution
retried = attempt_of 36 retry_scheduled 1 6

-- A third attempt, the last one.
abbrev last_try : Execution
last_try = record (attempt_of 37 running 1 6) { attempt = 3 }

abbrev alarm : Timer
alarm = record { execution_id = 36; fire_at = 1; next_attempt = 2 }

beside-IsFresh : (e : Execution) → e.id < 100 → IsFresh platform (beside e)
beside-IsFresh e h = record { no_event = λ n le. ground arith; no_execution = λ n le. ground arith }

submit_task_queues_example :
    (e : Execution) × (v : World) × (submit_task platform 21 world ≡ (ok e, v))
    × IsQueued platform uuid_one_to_one world report 1 e v
submit_task_queues_example =
    submit_task_queues platform uuid_one_to_one world 21 report world-IsFresh refl

retry_execution_queues_example :
    (e : Execution) × (v : World) × (retry_execution platform 38 (beside (attempt_of 38 failed 1 6))
      ≡ (ok e, v))
    × IsQueued platform uuid_one_to_one (beside (attempt_of 38 failed 1 6)) report 2 e v
retry_execution_queues_example =
    retry_execution_queues platform uuid_one_to_one (beside (attempt_of 38 failed 1 6)) 38
      (attempt_of 38 failed 1 6) report (beside-IsFresh (attempt_of 38 failed 1 6) (omega arith))
      refl refl refl

fire_timer_queues_example :
    (v : World) × (e : Execution) × (fire_timer platform alarm (beside retried) ≡ (ok tt, v))
    × (get_execution 100 v.store ≡ some e)
    × (e.status ≡ queued)
    × (e.task_id ≡ 20)
    × (e.attempt ≡ 2)
    × (v.timers ≡ [])
fire_timer_queues_example =
    fire_timer_queues platform uuid_one_to_one (beside retried) alarm retried
      (beside-IsFresh retried (omega arith)) refl refl refl

cancel_execution_cancels_example :
    (v : World) × (cancel_execution platform 30 world ≡ (ok tt, v))
    × Leaves (attempt_of 30 running 1 6) cancelled [] v
unfolding can_transition
cancel_execution_cancels_example =
    cancel_execution_cancels platform uuid_one_to_one world (attempt_of 30 running 1 6)
      world-IsFresh refl refl
