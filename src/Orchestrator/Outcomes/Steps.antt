-- ===== src/Orchestrator/Outcomes/Steps.antt =====
-- The steps of a handler of packages/orchestrator that leave the tables alone, for an execution that
-- is followed.
use baara_next.Base.{Bool, ℕ, ◌+◌, ◌≡◌, refl, false, some, List, [], ◌∷◌, ◌++◌, arith, remove}
use baara_next.Core.Status.{ExecutionStatus}
use baara_next.Core.Errors.{Error}
use baara_next.Core.Types.{Key, Execution}
use baara_next.Store.{get_execution}
use baara_next.Orchestrator.World.{
  when, Action, World, Timer, Platform, effects, gets, need, math_random,
}
use baara_next.Orchestrator.QueueManager.{enqueue, enqueue_visibility, enqueue_timer, cancel_timer}
use baara_next.Orchestrator.Outcomes.Runs.{skip-Runs, Runs, need-Runs, gets-Runs}
use baara_next.Orchestrator.Outcomes.Tracked.{Tracked, still}

module _ (p : Platform) (begin : World) (e : Execution) where
  -- What is read back of the execution.
  pub row-Runs :
      {ts : List Timer} {s : ExecutionStatus} {w : World} (x : Error)
      → Tracked p begin e ts s w
      → Runs (need (get_execution e.id) x) w (λ a v.
        (a.status ≡ s) × (a.id ≡ e.id) × (a.attempt ≡ e.attempt) × Tracked p begin e ts s v)
  row-Runs x t =
      need-Runs (get_execution e.id) x t.row t.found (t.at_status, t.same_id, t.same_attempt, t)

  -- The execution as a caller gets it.
  pub read-Runs :
      {ts : List Timer} {s : ExecutionStatus} {w : World} (x : Error)
      → Tracked p begin e ts s w
      → Runs (need (get_execution e.id) x) w (λ a v.
        (get_execution e.id v.store ≡ some a)
        × (a.status ≡ s)
        × (a.id ≡ e.id)
        × (a.task_id ≡ e.task_id)
        × (a.attempt ≡ e.attempt))
  read-Runs x t =
      need-Runs (get_execution e.id) x t.row t.found
        (t.found, t.at_status, t.same_id, t.same_task, t.same_attempt)

  pub drop_timer-Runs :
      {ts : List Timer} {s : ExecutionStatus} {w : World}
      → Tracked p begin e ts s w
      → Runs
          (cancel_timer e.id)
          w
          (λ _ v. Tracked p begin e (remove (λ x. x.execution_id) e.id ts) s v)
  unfolding cancel_timer
  drop_timer-Runs t = record {
    value = tt;
    after = _;
    returns = refl;
    holds = still _ t refl refl refl (omega arith) (rw t.same_timers refl) refl;
  }

  -- The news of a task in a queue.
  pub enqueue-Runs :
      {ts : List Timer} {s : ExecutionStatus} {w : World} (queue_name : Key)
      → Tracked p begin e ts s w
      → Runs (enqueue queue_name) w (λ _ v. Tracked p begin e ts s v)
  unfolding enqueue
  enqueue-Runs queue_name t = record {
    value = tt;
    after = _;
    returns = refl;
    holds = still _ t refl refl refl (omega arith) t.same_timers refl;
  }

  pub visibility-Runs :
      {ts : List Timer} {s : ExecutionStatus} {w : World} (s' : ExecutionStatus)
      → Tracked p begin e ts s w
      → Runs (enqueue_visibility e.id s') w (λ _ v. Tracked p begin e ts s v)
  unfolding enqueue_visibility
  visibility-Runs s' t = record {
    value = tt;
    after = _;
    returns = refl;
    holds = still _ t refl refl refl (omega arith) t.same_timers refl;
  }

  -- A guard that lets pass.
  pub pass-Runs :
      {ts : List Timer} {s : ExecutionStatus} {w : World} (m : Action (Unit {0})) (b : Bool)
      → b ≡ false
      → Tracked p begin e ts s w
      → Runs (when b m) w (λ _ v. Tracked p begin e ts s v)
  pass-Runs m b h t = skip-Runs m b h t

  -- A look at the world.
  pub look-Runs :
      {A : Type 0} {ts : List Timer} {s : ExecutionStatus} {w : World} (f : World → A)
      → Tracked p begin e ts s w
      → Runs (gets f) w (λ a v. (a ≡ f w) × Tracked p begin e ts s v)
  look-Runs f t = gets-Runs f (refl, t)

  -- A draw, of which nothing is known but that it is one of the platform's.
  pub draw-Runs :
      {ts : List Timer} {s : ExecutionStatus} {w : World}
      → Tracked p begin e ts s w
      → Runs (math_random p) w (λ a v. (a ≡ p.random w.drawn) × Tracked p begin e ts s v)
  unfolding math_random
  draw-Runs t = record {
    value = _;
    after = _;
    returns = refl;
    holds = (refl, still _ t refl refl refl (omega arith) t.same_timers refl);
  }

  pub timer-Runs :
      {ts : List Timer} {s : ExecutionStatus} {w : World} (delay next : ℕ)
      → Tracked p begin e ts s w
      → Runs (enqueue_timer e.id delay next) w (λ _ v.
        Tracked p begin e
          (remove (λ x. x.execution_id) e.id ts
            ++ (record { execution_id = e.id; fire_at = begin.now + delay; next_attempt = next })
              ∷ [])
          s
          v)
  unfolding enqueue_timer cancel_timer effects
  timer-Runs delay next t = record {
    value = tt;
    after = _;
    returns = refl;
    holds = still _ t refl refl refl (omega arith) (rw (t.same_timers, t.same_now) refl) refl;
  }
