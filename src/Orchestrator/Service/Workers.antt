-- ===== src/Orchestrator/Service/Workers.antt =====
-- `start` and `stop` of packages/orchestrator/src/orchestrator-service.ts.
use baara_next.Base.{true, none, keep, List, [], ◌∷◌, ◌≡◌, refl, ◌∙◌, Bool-cases, inl, inr}
use baara_next.Core.Errors.{Result, ok, err}
use baara_next.Store.{Store}
use baara_next.Core.Types.{Task, Key, Text}
use baara_next.Store.Tasks.{list_tasks}
use baara_next.Orchestrator.World.{
  World, Platform, Action, ◌>>◌, ◌>>=◌, and_then, throw, pure, effects,
}
use baara_next.Orchestrator.QueueManager.{cancel_all_timers}
use baara_next.Orchestrator.HealthMonitor
use baara_next.Orchestrator.Scheduler
use baara_next.Orchestrator.Scheduler.{
  register, unregister, register_all, start_all, recurs, cron_of,
}

-- `start`
unfoldable pub start_workers : Platform → Action (Unit {0})
start_workers p = HealthMonitor.start >> start_all p

-- `stop`
unfoldable pub stop_workers : Action (Unit {0})
stop_workers = cancel_all_timers >> (HealthMonitor.stop >> Scheduler.stop)

after_store :
    (r : Result (Unit {0})) (m : Action (Unit {0})) (s : Store) (w : World)
    → w.store ≡ s
    → ((v : World) → (m v).1.store ≡ v.store)
    → (and_then r (λ _. m) w).1.store ≡ s
unfolding and_then throw
after_store (ok a) m s w same keeps = keeps w ∙ same
after_store (err e) m s w same keeps = same

register_store :
    (p : Platform) (id : Key) (cron : Text) (w : World) → (register p id cron w).1.store ≡ w.store
unfolding register unregister effects and_then
register_store p id cron w = elim (Bool-cases (p.is_cron cron)) [
  | inl valid ↦ rw valid refl
  | inr invalid ↦ rw invalid refl
]

register_all_store :
    (p : Platform) (ts : List Task) (w : World) → (register_all p ts w).1.store ≡ w.store
unfolding register_all ◌>>=◌ pure
register_all_store p [] w = refl
register_all_store p (t ∷ ts) w =
    after_store (register p t.id (cron_of t) w).0 (register_all p ts) w.store
      (register p t.id (cron_of t) w).1 (register_store p t.id (cron_of t) w)
      (λ v. register_all_store p ts v)

-- The cron jobs and the intervals come and go without a change of the store.
pub start_workers_store : (p : Platform) (w : World) → (start_workers p w).1.store ≡ w.store
unfolding start_workers HealthMonitor.start start_all effects and_then
start_workers_store p w =
    register_all_store p (keep recurs (list_tasks none w.store)) (record w { monitoring = true })

pub stop_workers_store : (w : World) → (stop_workers w).1.store ≡ w.store
unfolding stop_workers cancel_all_timers HealthMonitor.stop Scheduler.stop effects
stop_workers_store w = refl
