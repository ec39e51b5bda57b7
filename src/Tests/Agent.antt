-- ===== src/Tests/Agent.antt =====
-- The agent on a small world.
use baara_next.Base.{◌≡◌, refl, arith, List, [], ◌∷◌, ◌++◌, some}
use baara_next.Core.Status.{assigned}
use baara_next.Core.Errors.{ok}
use baara_next.Core.Types.{Execution, ResultStatus}
use baara_next.Store.{get_execution}
use baara_next.Orchestrator.World.{World}
use baara_next.Orchestrator.Outcomes.Tracked.{IsFresh}
use baara_next.Orchestrator.Outcomes.Completion.{EndsAs}
use baara_next.Agent.TurnManager.{new_turn_manager, before_turn}
use baara_next.Agent.TurnManager.Limits.{
  Turn, announced, recorded, announced_counts, take_turns, IsDue, before_turn-IsDue,
}
use baara_next.Agent.Heartbeat.Timers.{Switch, start, stop}
use baara_next.Agent.Service.{AgentRuntime, select_runtime, run_assignment}
use baara_next.Agent.Service.Stuck.{run_assignment_stuck}
use baara_next.Agent.Service.Runs.{assignment_of, run_assignment_settles}
use baara_next.Tests.Sample.{
  platform, uuid_one_to_one, random_small, report, attempt_of, world, failure,
}

abbrev claimed : Execution
claimed = attempt_of 35 assigned 1 6

abbrev beside : World
beside = record world {
  store = record world.store { executions = claimed ∷ world.store.executions };
}

beside-IsFresh : IsFresh platform beside
beside-IsFresh = record { no_event = λ n le. ground arith; no_execution = λ n le. ground arith }

-- A runtime for shell scripts that always fails.
abbrev failing : AgentRuntime
failing = record { name = 17; capabilities = []; execute = λ id task w. (ok failure, w) }

run_assignment_settles_example :
    (v : World) × (run_assignment platform (failing ∷ []) (assignment_of claimed report) beside
      ≡ (ok tt, v))
    × (x : Execution) × (get_execution 35 v.store ≡ some x)
    × EndsAs ResultStatus.failed 1 2 x.status
unfolding select_runtime
run_assignment_settles_example =
    run_assignment_settles platform uuid_one_to_one random_small (failing ∷ []) beside claimed
      report failing failure beside-IsFresh refl refl refl refl (λ v. refl)

run_assignment_stuck_example :
    run_assignment platform [] (assignment_of claimed report) beside ≡ (ok tt, beside)
unfolding select_runtime
run_assignment_stuck_example =
    run_assignment_stuck platform [] (assignment_of claimed report) beside claimed refl refl refl

abbrev turns : List Turn
turns = announced ∷ recorded ∷ announced ∷ []

before_turn-IsDue_example :
    ((take_turns turns (new_turn_manager 4 9)).current_turn ≡ 3)
    × ((before_turn (take_turns turns (new_turn_manager 4 9))).1.current_turn ≡ 4)
    × ((before_turn (take_turns turns (new_turn_manager 4 9))).1.heartbeats
        ≡ announced_counts 0 turns ++ 4 ∷ [])
    × IsDue 4 9 4 (before_turn (take_turns turns (new_turn_manager 4 9))).0.action
before_turn-IsDue_example = before_turn-IsDue 4 9 turns

abbrev switches : List Switch
switches = start ∷ start ∷ stop ∷ start ∷ []
