-- ===== src/Orchestrator/Frames/Queues.antt =====
-- Stable relations across the queue manager, the retries, the scheduler and the health monitor
-- of packages/orchestrator.
use baara_next.Base.{ℕ, Option, none, some, List, [], ◌∷◌, refl}
use baara_next.Core.Types.{Key, Task, Execution}
use baara_next.Store.{Store}
use baara_next.Orchestrator.World.{Platform, Action, Timer}
use baara_next.Orchestrator.QueueManager.{
  enqueue_timer, add_timer, start_retry, retry_if_scheduled, fire_timer,
}
use baara_next.Orchestrator.Retry.{schedule_retry, route_to_dlq}
use baara_next.Orchestrator.HealthMonitor.{
  Verdict, fine, lagging, lost, act_on, check_started, check_one, check_all, check,
}
use baara_next.Orchestrator.Scheduler.{submit_tick, tick_task, tick}
use baara_next.Orchestrator.Frames.Rules.{IsStable, Keeps, still-Keeps, bind-Keeps}
use baara_next.Orchestrator.Frames.Statements.{statements}

module _ {R : Store → Store → Type 0} (stable : IsStable R) (p : Platform) where
  add_timer-Keeps : (t : Timer) → Keeps R (add_timer t)
  add_timer-Keeps t = still-Keeps stable _ (λ w. refl)

  pub enqueue_timer-Keeps : (id : Key) (delay next : ℕ) → Keeps R (enqueue_timer id delay next)
  unfolding enqueue_timer
  enqueue_timer-Keeps id delay next = search (statements, add_timer-Keeps) depth 20

  pub schedule_retry-Keeps : (e : Execution) (delay : ℕ) → Keeps R (schedule_retry p e delay)
  unfolding schedule_retry
  schedule_retry-Keeps e delay = search (statements, enqueue_timer-Keeps) depth 20

  pub route_to_dlq-Keeps : (e : Execution) → Keeps R (route_to_dlq p e)
  unfolding route_to_dlq
  route_to_dlq-Keeps e = search statements depth 20

  start_retry-Keeps : (e : Execution) (n : ℕ) → Keeps R (start_retry p e n)
  unfolding start_retry
  start_retry-Keeps e n = search statements depth 30

  retry_if_scheduled-Keeps : (o : Option Execution) (n : ℕ) → Keeps R (retry_if_scheduled p o n)
  retry_if_scheduled-Keeps none n = search statements
  retry_if_scheduled-Keeps (some e) n = search (statements, start_retry-Keeps)

  pub fire_timer-Keeps : (t : Timer) → Keeps R (fire_timer p t)
  unfolding fire_timer
  fire_timer-Keeps t = search (statements, retry_if_scheduled-Keeps) depth 20

  submit_tick-Keeps : (t : Task) → Keeps R (submit_tick p t)
  unfolding submit_tick
  submit_tick-Keeps t = search statements depth 30

  tick_task-Keeps : (o : Option Task) → Keeps R (tick_task p o)
  tick_task-Keeps none = search statements
  tick_task-Keeps (some t) = search (statements, submit_tick-Keeps)

  pub tick-Keeps : (task_id : Key) → Keeps R (tick p task_id)
  unfolding tick
  tick-Keeps task_id = search (statements, tick_task-Keeps) depth 20

  module _ (on_crash : Key → Action (Unit {0}))
      (crash-Keeps : (id : Key) → Keeps R (on_crash id)) where
    act_on-Keeps : (id : Key) (v : Verdict) → Keeps R (act_on on_crash id v)
    act_on-Keeps id fine = search statements
    act_on-Keeps id lagging = search statements
    act_on-Keeps id lost = search (statements, crash-Keeps) depth 20

    check_started-Keeps :
        (e : Execution) (o : Option ℕ) (t : Option Task) → Keeps R (check_started on_crash e o t)
    check_started-Keeps e none t = search statements
    check_started-Keeps e (some n) none = search statements
    check_started-Keeps e (some n) (some t) = search (statements, act_on-Keeps) depth 20

    check_one-Keeps : (e : Execution) → Keeps R (check_one on_crash e)
    unfolding check_one
    check_one-Keeps e = search (statements, check_started-Keeps) depth 20

    check_all-Keeps : (es : List Execution) → Keeps R (check_all on_crash es)
    unfolding check_all
    check_all-Keeps [] = search statements
    check_all-Keeps (e ∷ es) = bind-Keeps stable (check_one-Keeps e) (λ _. check_all-Keeps es)

    pub check-Keeps : Keeps R (check on_crash)
    unfolding check
    check-Keeps = search (statements, check_all-Keeps) depth 20
