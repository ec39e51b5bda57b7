-- ===== src/Orchestrator/HealthMonitor/Passes.antt =====
-- The checks of one execution by packages/orchestrator/src/health-monitor.ts, one after the other.
use baara_next.Base.{ℕ, List, [], ◌∷◌, Option, none, some}
use baara_next.Core.Errors.{ok}
use baara_next.Core.Types.{Key, Execution}
use baara_next.Store.{Store, get_execution}
use baara_next.Orchestrator.World.{World, Action}
use baara_next.Orchestrator.HealthMonitor.{check_one}

-- A crash handler that only writes down what it is told.
abbrev pub note_crash : Key → Action (Unit {0})
note_crash id w = (ok tt, record w { available = id ∷ w.available })

abbrev pub check_found : Option Execution → (now : ℕ) → World → World
check_found none now w = w
check_found (some e) now w = (check_one note_crash e (record w { now = now })).1

-- A check of the execution at a time, with the row that is stored then.
abbrev pub check_at : Key → (now : ℕ) → World → World
check_at id now w = check_found (get_execution id w.store) now w

abbrev pub check_times : Key → (times : List ℕ) → World → World
check_times id [] w = w
check_times id (now ∷ times) w = check_times id times (check_at id now w)
