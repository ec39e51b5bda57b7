-- ===== src/Tests/Lifecycle.antt =====
-- Sequences of calls, and the state machine and the retries at concrete values.
use baara_next.Base.{ℕ, List, false, find, ◌∷◌}
use baara_next.Core.Errors.{ok, err, other}
use baara_next.Orchestrator.Scheduler.{register}
use baara_next.Orchestrator.Scheduler.Jobs.{KeepsOther, register-Distinct}
use baara_next.Base.{◌≡◌, ◌↔◌, ◌<◌, ◌≤◌, ◌*◌, ◌+◌, [], true, false, some, none, ◌⊎◌, refl, arith}
use baara_next.Core.Status.{
  ExecutionStatus, running, completed, failed, is_terminal, allowed_transitions,
}
use baara_next.Core.Status.Graph.{Leads, terminal_reachable}
use baara_next.Core.Types.{Execution}
use baara_next.Store.{get_execution}
use baara_next.Store.Soundness.{IsSound}
use baara_next.Store.Evolution.{Successor}
use baara_next.Orchestrator.World.{World}
use baara_next.Orchestrator.Retry.{base_delay, calculate_delay, default_retry_config}
use baara_next.Orchestrator.Retry.Bounds.{calculate_delay-near}
use baara_next.Orchestrator.Service.Submit.{submit_task, cancel_execution}
use baara_next.Orchestrator.Lifecycle.Steps.{
  Reach, here, next, submits, cancels, Reach-IsSound, Reach-Successor, terminal_stays,
}
use baara_next.Tests.Sample.{platform, attempt_of, world, store-IsSound}

-- A task is submitted, and an operator cancels the execution that runs.
abbrev after : World
after = (cancel_execution platform 30 (submit_task platform 20 world).1).1

abbrev two_calls : Reach platform false world after
two_calls = next (next here (submits 20)) (cancels 30)

Reach-IsSound_example : IsSound after.store
Reach-IsSound_example = Reach-IsSound platform false world after two_calls store-IsSound

Reach-Successor_example :
    (e : Execution) × (get_execution 30 after.store ≡ some e)
    × Successor (attempt_of 30 running 1 6) e
Reach-Successor_example =
    Reach-Successor platform false world after 30 (attempt_of 30 running 1 6) two_calls
      store-IsSound refl

terminal_stays_example :
    (e : Execution) × (get_execution 32 after.store ≡ some e) × (e.status ≡ completed)
unfolding is_terminal
terminal_stays_example =
    terminal_stays platform false world after 32 (attempt_of 32 completed 1 6) two_calls
      store-IsSound refl refl

terminal_reachable_example :
    ((is_terminal failed ≡ true) ↔ (allowed_transitions failed ≡ []))
    × (t : ExecutionStatus) × Leads failed t
    × (is_terminal t ≡ true)
terminal_reachable_example = terminal_reachable failed

calculate_delay-near_example :
    (9 * base_delay 3 default_retry_config < 10 * calculate_delay 3 default_retry_config 10 7 + 5)
    × (10 * calculate_delay 3 default_retry_config 10 7
        ≤ 11 * base_delay 3 default_retry_config + 5)
    × (10 * calculate_delay 3 default_retry_config 10 7 ≤ 11 * 60000 + 5)
calculate_delay-near_example = calculate_delay-near 3 default_retry_config 10 7 (omega arith)

abbrev clock_times : List ℕ
clock_times = 1100 ∷ 200000 ∷ 301500 ∷ 301500 ∷ 400000 ∷ []

abbrev started : Execution
started = record (attempt_of 30 running 1 6) { started_at = some 1000 }

abbrev watched : World
watched = record world { store = record world.store { executions = started ∷ [] } }

-- A world with a job for the task.
abbrev planned : World
planned = record world { jobs = (record { task_id = 20; cron_expression = 1 ∷ [] }) ∷ [] }

register-Distinct_example :
    (v : World) × KeepsOther 9 planned v
    × (((true ≡ true)
          × (register platform 20 (2 ∷ []) planned ≡ (ok tt, v))
          × (find (λ j. j.task_id) 20 v.jobs
              ≡ some (record { task_id = 20; cron_expression = 2 ∷ [] })))
        ⊎ ((true ≡ false)
            × (register platform 20 (2 ∷ []) planned ≡ (err other, v))
            × (find (λ j. j.task_id) 20 v.jobs ≡ none)))
register-Distinct_example =
    register-Distinct platform 20 (2 ∷ []) 9 planned (λ h. ground arith) (refl, tt)
