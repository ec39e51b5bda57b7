-- ===== src/Orchestrator/HealthMonitor.antt =====
-- packages/orchestrator/src/health-monitor.ts
pub mod Verdicts
pub mod Passes
use baara_next.Base.{
  ℕ, ◌+◌, ◌*◌, List, [], ◌∷◌, Bool, true, false, ◌&&◌, Option, none, some, if◌then◌else◌, ltb,
}
use baara_next.Core.Status.{running}
use baara_next.Core.Types.{Key, Execution, Task, HealthStatus, healthy, slow, unresponsive}
use baara_next.Core.Errors.{ok}
use baara_next.Store.{get_task}
use baara_next.Store.Executions.{update_execution_fields, list_all_executions}
use baara_next.Orchestrator.World.{Action, done, gets, look, ◌>>=◌, ◌>>◌, on_store, swallow}

-- `start` and `stop`; a second call changes nothing.
unfoldable pub start : Action (Unit {0})
start w = (ok tt, record w { monitoring = true })

unfoldable pub stop : Action (Unit {0})
stop w = (ok tt, record w { monitoring = false })

-- What `check` does about one execution: nothing, or one of two new values for its health.
pub data Verdict : Type 0 where
  fine lagging lost : Verdict

abbrev pub is_unresponsive : HealthStatus → Bool
is_unresponsive unresponsive = true
is_unresponsive _ = false

abbrev pub is_healthy : HealthStatus → Bool
is_healthy healthy = true
is_healthy _ = false

-- `elapsed > timeoutMs` is `started + timeout < now`, and `elapsed > timeoutMs * 0.5` is
-- `2 * started + timeout < 2 * now`: so no difference of times has to be formed.
unfoldable pub assess : (started timeout now : ℕ) → HealthStatus → Verdict
assess started timeout now health =
    if ltb (started + timeout) now
    then (if is_unresponsive health then fine else lost)
    else (if ltb (2 * started + timeout) (2 * now) && is_healthy health then lagging else fine)

-- The health that `check` writes for a verdict.
abbrev pub new_health : Verdict → Option HealthStatus
new_health fine = none
new_health lagging = some slow
new_health lost = some unresponsive

module _ (on_crash_detected : Key → Action (Unit {0})) where
  abbrev pub act_on : Key → Verdict → Action (Unit {0})
  act_on id fine = done
  act_on id lagging = on_store (update_execution_fields id none (new_health lagging) none)
  act_on id lost = do
    on_store (update_execution_fields id none (new_health lost) none)
    swallow (on_crash_detected id)

  abbrev pub check_started : Execution → Option ℕ → Option Task → Action (Unit {0})
  check_started e none task = done
  check_started e (some started) none = done
  check_started e (some started) (some task) = do
    now ← gets (λ w. w.now)
    act_on e.id (assess started task.timeout_ms now e.health_status)

  -- The body of the loop of `check`.
  unfoldable pub check_one : Execution → Action (Unit {0})
  check_one e = do task ← look (get_task e.task_id); check_started e e.started_at task

  unfoldable pub check_all : List Execution → Action (Unit {0})
  check_all [] = done
  check_all (e ∷ es) = check_one e >> check_all es

  -- `check`, over the executions that run when it begins.
  unfoldable pub check : Action (Unit {0})
  unfolding check_one check_all
  check = do executions ← look (list_all_executions (some running) none); check_all executions
