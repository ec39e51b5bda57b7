-- ===== src/Orchestrator/Lifecycle/Steps.antt =====
-- The calls that reach the orchestrator of packages/orchestrator, in any order: from agents and
-- operators, from the timers, the cron jobs and the intervals. Handlers do not interleave; a direct
-- run is its beginning and, later, its completion.
use baara_next.Base.{ℕ, ◌+◌, ◌≤◌, Option, some, ◌≡◌, refl, Bool, true, find, List, arith}
use baara_next.Core.Status.{is_terminal}
use baara_next.Core.Status.Graph.{⟶*-terminal}
use baara_next.Core.Types.{Key, Text, Execution, ExecuteResult, Task}
use baara_next.Store.{Store, get_execution}
use baara_next.Store.Soundness.{IsSound}
use baara_next.Store.Evolution.{Successor, Evolves-same, Evolves-trans}
use baara_next.Orchestrator.World.{World, Timer, Platform}
use baara_next.Orchestrator.QueueManager.{fire_timer, flush_visibility}
use baara_next.Orchestrator.HealthMonitor.{check}
use baara_next.Orchestrator.Scheduler.{tick}
use baara_next.Orchestrator.Service.Submit.{submit_task, cancel_execution, retry_execution}
use baara_next.Orchestrator.Service.Complete.{handle_execution_complete}
use baara_next.Orchestrator.Service.Run.{begin_direct}
use baara_next.Orchestrator.Service.Recover.{recover_execution}
use baara_next.Orchestrator.Service.Match.{match_task, start_execution, heartbeat}
use baara_next.Orchestrator.Service.Workers.{
  start_workers, stop_workers, start_workers_store, stop_workers_store,
}
use baara_next.Orchestrator.Service.Input.{provide_input, request_input}
use baara_next.Orchestrator.Frames.Queues.{fire_timer-Keeps, tick-Keeps, check-Keeps}
use baara_next.Orchestrator.Frames.Service.{
  submit_task-Keeps, cancel_execution-Keeps, retry_execution-Keeps, handle_execution_complete-Keeps,
  begin_direct-Keeps, recover_execution-Keeps, match_task-Keeps, start_execution-Keeps,
  heartbeat-Keeps, provide_input-Keeps, request_input-Keeps,
}
use baara_next.Orchestrator.Lifecycle.Advance.{Advances, Advances-IsStable}

module _ (p : Platform) (bus : Bool) where
  pub data Step (w : World) : World → Type 0 where
    submits : (task_id : Key) → Step w (submit_task p task_id w).1
    begins : (task : Task) → Step w (begin_direct p task w).1
    cancels : (id : Key) → Step w (cancel_execution p id w).1
    retries : (id : Key) → Step w (retry_execution p id w).1
    recovers : (id : Key) → Step w (recover_execution p bus id w).1
    matches : (agent : Key) → Step w (match_task p agent w).1
    starts : (id : Key) → Step w (start_execution p id w).1
    completes : (id : Key) (r : ExecuteResult) → Step w (handle_execution_complete p id r w).1
    provides : (id : Key) (response : Text) → Step w (provide_input p id response w).1
    requests :
        (id : Key) (prompt : Text) (options : Option (List Text))
        → Step w (request_input p id prompt options w).1
    beats : (id : Key) (turn_count : ℕ) → Step w (heartbeat id turn_count w).1
    fires :
        (t : Timer)
        → find (λ x. x.execution_id) t.execution_id w.timers ≡ some t
        → t.fire_at ≤ w.now
        → Step w (fire_timer p t w).1
    ticks : (task_id : Key) → Step w (tick p task_id w).1
    checks : Step w (check (recover_execution p bus) w).1
    flushes : Step w (flush_visibility w).1
    boots : Step w (start_workers p w).1
    stops : Step w (stop_workers w).1
    passes : (ms : ℕ) → Step w (record w { now = w.now + ms })

  pub data Reach (w : World) : World → Type 0 where
    here : Reach w w
    next : {u v : World} → Reach w u → Step u v → Reach w v

  flush_store : (w : World) → (flush_visibility w).1.store ≡ w.store
  unfolding flush_visibility
  flush_store w = ground arith

  Advances-same : (s t : Store) → t ≡ s → Advances s t
  Advances-same s t h v = (rw h v, Evolves-same s t (ground arith))

  Step-Advances : (w w' : World) → Step w w' → Advances w.store w'.store
  Step-Advances w w' (submits id) = (submit_task-Keeps Advances-IsStable p id).across w
  Step-Advances w w' (begins t) = (begin_direct-Keeps Advances-IsStable p t).across w
  Step-Advances w w' (cancels id) = (cancel_execution-Keeps Advances-IsStable p id).across w
  Step-Advances w w' (retries id) = (retry_execution-Keeps Advances-IsStable p id).across w
  Step-Advances w w' (recovers id) = (recover_execution-Keeps Advances-IsStable p bus id).across w
  Step-Advances w w' (matches a) = (match_task-Keeps Advances-IsStable p a).across w
  Step-Advances w w' (starts id) = (start_execution-Keeps Advances-IsStable p id).across w
  Step-Advances w w' (completes id r) =
      (handle_execution_complete-Keeps Advances-IsStable p id r).across w
  Step-Advances w w' (provides id r) = (provide_input-Keeps Advances-IsStable p id r).across w
  Step-Advances w w' (requests id q o) = (request_input-Keeps Advances-IsStable p id q o).across w
  Step-Advances w w' (beats id n) = (heartbeat-Keeps Advances-IsStable p id n).across w
  Step-Advances w w' (fires t _ _) = (fire_timer-Keeps Advances-IsStable p t).across w
  Step-Advances w w' (ticks id) = (tick-Keeps Advances-IsStable p id).across w
  Step-Advances w w' checks =
      (check-Keeps Advances-IsStable p (recover_execution p bus)
          (recover_execution-Keeps Advances-IsStable p bus)).across
        w
  Step-Advances w w' flushes = Advances-same w.store _ (flush_store w)
  Step-Advances w w' boots = Advances-same w.store _ (start_workers_store p w)
  Step-Advances w w' stops = Advances-same w.store _ (stop_workers_store w)
  Step-Advances w w' (passes ms) = Advances-same w.store w.store refl

  Reach-Advances : (w w' : World) → Reach w w' → Advances w.store w'.store
  Reach-Advances w w' here v = (v, Evolves-same w.store w.store refl)
  Reach-Advances w w' (next {u = u} r st) v =
      let (v', a) = Reach-Advances w u r v in
      let (v'', b) = Step-Advances u w' st v' in (v'', Evolves-trans w.store u.store w'.store a b)

  -- Whatever calls reach the orchestrator, in any order, a sound store stays sound: no two executions have one id,
  -- each execution has its task, each event and each input request its execution, and the events of
  -- each execution are numbered from 1 without a gap.
  pub Reach-IsSound : (w w' : World) → Reach w w' → IsSound w.store → IsSound w'.store
  Reach-IsSound w w' r v = (Reach-Advances w w' r v).0

  -- Whatever calls reach the orchestrator over a sound store, an execution stays, with its task, queue, priority and
  -- attempt, and its status moves along the edges of the state machine only.
  pub Reach-Successor :
      (w w' : World) (id : Key) (e : Execution)
      → Reach w w'
      → IsSound w.store
      → get_execution id w.store ≡ some e
      → (e' : Execution) × (get_execution id w'.store ≡ some e') × Successor e e'
  Reach-Successor w w' id e r v found = (Reach-Advances w w' r v).1.kept id e found

  -- Whatever calls reach the orchestrator over a sound store, an execution that is completed, cancelled or
  -- dead-lettered keeps that status.
  pub terminal_stays :
      (w w' : World) (id : Key) (e : Execution)
      → Reach w w'
      → IsSound w.store
      → get_execution id w.store ≡ some e
      → is_terminal e.status ≡ true
      → (e' : Execution) × (get_execution id w'.store ≡ some e') × (e'.status ≡ e.status)
  terminal_stays w w' id e r v found end =
      let (e', found', s) = Reach-Successor w w' id e r v found in
      (e', found', ⟶*-terminal s.path end)
