-- ===== src/Orchestrator/Outcomes/Direct.antt =====
-- How a direct run of packages/orchestrator/src/orchestrator-service.ts begins.
use baara_next.Base.{ℕ, ◌≡◌, refl, true, is_some}
use baara_next.Core.Status.{queued, assigned, running, can_transition}
use baara_next.Core.Errors.{ok}
use baara_next.Core.Types.{Key, Task, no_updates}
use baara_next.Store.{get_task}
use baara_next.Orchestrator.World.{World, Platform, random_uuid, gets}
use baara_next.Orchestrator.Service.Run.{begin_direct}
use baara_next.Orchestrator.Outcomes.Runs.{Runs, bind-Runs, step-Runs, pure-Runs}
use baara_next.Orchestrator.Outcomes.Tracked.{IsFresh, Tracked, emit-Runs, move-Runs}
use baara_next.Orchestrator.Outcomes.Submission.{made, made-Tracked, create_made, may_queue}
use baara_next.Orchestrator.Outcomes.Changes.{Leaves, leaves}

may_assign : can_transition queued assigned ≡ true
unfolding can_transition
may_assign = refl

may_run : can_transition assigned running ≡ true
unfolding can_transition
may_run = refl

module _ (p : Platform) (one_to_one : (m n : ℕ) → p.uuid m ≡ p.uuid n → m ≡ n) where
  begin_direct-Runs :
      (w : World) (task : Task)
      → IsFresh p w
      → is_some (get_task task.id w.store) ≡ true
      → Runs (begin_direct p task) w (λ id v.
        (id ≡ p.uuid w.drawn) × Tracked p w (made p one_to_one w task 1) w.timers running v)
  unfolding begin_direct random_uuid gets
  begin_direct-Runs w task fresh there =
      let e = made p one_to_one w task 1 in
      let t = made-Tracked p one_to_one w e fresh refl refl in
      step-Runs _ _ refl (
        step-Runs _ _ refl (
          step-Runs _ _ refl (
            step-Runs _ _ (create_made p one_to_one w task 1 fresh there) (
              bind-Runs (emit-Runs p one_to_one w e _ t) (λ _ w₁ t₁.
                bind-Runs (move-Runs p one_to_one w e queued no_updates may_queue t₁) (λ _ w₂ t₂.
                  bind-Runs (emit-Runs p one_to_one w e _ t₂) (λ _ w₃ t₃.
                    bind-Runs (move-Runs p one_to_one w e assigned no_updates may_assign t₃)
                      (λ _ w₄ t₄. bind-Runs (emit-Runs p one_to_one w e _ t₄) (λ _ w₅ t₅.
                        bind-Runs (move-Runs p one_to_one w e running _ may_run t₅)
                          (λ _ w₆ t₆. pure-Runs _ (refl, t₆)))))))))))

  -- Where the ids to come are new and all different, the beginning of a direct run of a task that is
  -- there returns the next id, and leaves a first attempt under that id running and the timers as
  -- they were.
  pub begin_direct_runs :
      (w : World) (task : Task)
      → IsFresh p w
      → is_some (get_task task.id w.store) ≡ true
      → (id : Key) × (v : World) × (begin_direct p task w ≡ (ok id, v))
        × (id ≡ p.uuid w.drawn)
        × Leaves (made p one_to_one w task 1) running w.timers v
  begin_direct_runs w task fresh there =
      let run = begin_direct-Runs w task fresh there in
      let (same, t) = run.holds in (run.value, run.after, run.returns, same, leaves t)
