-- ===== src/Orchestrator/Outcomes/Changes.antt =====
-- How the calls of packages/orchestrator/src/orchestrator-service.ts that move one execution
-- end: `startExecution`, `cancelExecution`, and `recoverExecution` without attempts left.
use baara_next.Base.{
  ℕ, ◌+◌, ◌<◌, ◌≡◌, refl, ◌∙◌, Bool, true, false, some, List, arith, remove, not, ltb,
}
use baara_next.Core.Status.{
  ExecutionStatus, assigned, running, cancelled, failed, dead_lettered, can_transition, same_status,
  is_terminal,
}
use baara_next.Core.Errors.{ok, other}
use baara_next.Core.Types.{Task, Execution, no_updates}
use baara_next.Store.{get_execution, get_task}
use baara_next.Orchestrator.World.{World, Timer, Platform, effects}
use baara_next.Orchestrator.Service.Submit.{cancel_execution}
use baara_next.Orchestrator.Service.Match.{start_execution}
use baara_next.Orchestrator.Service.Recover.{recover_execution, give_up}
use baara_next.Orchestrator.Outcomes.Runs.{Runs, bind-Runs, step-Runs}
use baara_next.Orchestrator.Outcomes.Tracked.{IsFresh, Tracked, emit-Runs, move-Runs}
use baara_next.Orchestrator.Outcomes.Steps.{
  row-Runs, visibility-Runs, drop_timer-Runs, pass-Runs, look-Runs,
}
use baara_next.Orchestrator.Outcomes.Submission.{need_found}
use baara_next.Orchestrator.Outcomes.Settling.{route_to_dlq-Runs}

-- The beginning of a handler.
pub tracked :
    (p : Platform) (w : World) (e : Execution)
    → IsFresh p w
    → get_execution e.id w.store ≡ some e
    → Tracked p w e w.timers e.status w
tracked p w e fresh found = record {
  fresh = fresh;
  row = e;
  found = found;
  at_status = refl;
  same_id = refl;
  same_attempt = refl;
  same_task = refl;
  same_tasks = refl;
  same_timers = refl;
  same_now = refl;
}

-- The call returns, and leaves the execution at a status beside some timers.
abbrev pub Leaves : Execution → ExecutionStatus → List Timer → World → Type 0
Leaves e s timers v =
    (x : Execution) × (get_execution e.id v.store ≡ some x)
    × (x.status ≡ s)
    × (x.attempt ≡ e.attempt)
    × (v.timers ≡ timers)

pub leaves :
    {p : Platform} {w : World} {e : Execution} {ts : List Timer} {s : ExecutionStatus} {v : World}
    → Tracked p w e ts s v
    → Leaves e s ts v
leaves t = (t.row, t.found, t.at_status, t.same_attempt, t.same_timers)

not_terminal : (s : ExecutionStatus) → can_transition s cancelled ≡ true → is_terminal s ≡ false
unfolding can_transition is_terminal
not_terminal s h = ground arith

may_begin : (s : ExecutionStatus) → s ≡ assigned → can_transition s running ≡ true
unfolding can_transition
may_begin s h = ground arith

may_fail : (s : ExecutionStatus) → s ≡ running → can_transition s failed ≡ true
unfolding can_transition
may_fail s h = ground arith

may_bury : can_transition failed dead_lettered ≡ true
unfolding can_transition
may_bury = refl

module _ (p : Platform) (one_to_one : (m n : ℕ) → p.uuid m ≡ p.uuid n → m ≡ n) where
  -- Where the ids to come are new and all different, the cancellation of an execution that the
  -- state machine lets be cancelled returns, and leaves the execution cancelled and without a
  -- timer.
  pub cancel_execution_cancels :
      (w : World) (e : Execution)
      → IsFresh p w
      → get_execution e.id w.store ≡ some e
      → can_transition e.status cancelled ≡ true
      → (v : World) × (cancel_execution p e.id w ≡ (ok tt, v))
        × Leaves e cancelled (remove (λ x. x.execution_id) e.id w.timers) v
  unfolding cancel_execution
  cancel_execution_cancels w e fresh found may =
      let run : Runs (cancel_execution p e.id) w
          (λ _ v. Tracked p w e (remove (λ x. x.execution_id) e.id w.timers) cancelled v) =
        step-Runs _ _ (need_found (get_execution e.id) _ w e found) (
          bind-Runs
            (pass-Runs p w e _ (is_terminal e.status) (not_terminal e.status may)
              (tracked p w e fresh found))
            (λ _ w₁ t₁. bind-Runs (drop_timer-Runs p w e t₁) (λ _ w₂ t₂.
              bind-Runs (move-Runs p one_to_one w e cancelled no_updates may t₂) (λ _ w₃ t₃.
                bind-Runs (emit-Runs p one_to_one w e _ t₃)
                  (λ _ w₄ t₄. visibility-Runs p w e cancelled t₄))))) in
      (run.after, run.returns, leaves run.holds)

  pub start_execution-Runs :
      (w : World) (e : Execution)
      → IsFresh p w
      → get_execution e.id w.store ≡ some e
      → e.status ≡ assigned
      → Runs (start_execution p e.id) w (λ _ v. Tracked p w e w.timers running v)
  unfolding start_execution
  start_execution-Runs w e fresh found at =
      let go : same_status e.status assigned ≡ true = ground arith in
      step-Runs _ _ (need_found (get_execution e.id) _ w e found) (
        bind-Runs
          (pass-Runs p w e _ (not (same_status e.status assigned)) (rw go refl)
            (tracked p w e fresh found))
          (λ _ w₁ t₁. bind-Runs (look-Runs p w e (λ x. x.now) t₁) (λ now w₂ h.
            let (_, t₂) = h in
            bind-Runs (move-Runs p one_to_one w e running _ (may_begin e.status at) t₂) (λ _ w₃ t₃.
              bind-Runs (emit-Runs p one_to_one w e _ t₃)
                (λ _ w₄ t₄. visibility-Runs p w e running t₄)))))

  -- Where the ids to come are new and all different, the start of an assigned execution returns,
  -- and leaves the execution running and the timers as they were.
  pub start_execution_runs :
      (w : World) (e : Execution)
      → IsFresh p w
      → get_execution e.id w.store ≡ some e
      → e.status ≡ assigned
      → (v : World) × (start_execution p e.id w ≡ (ok tt, v)) × Leaves e running w.timers v
  start_execution_runs w e fresh found at =
      let run = start_execution-Runs w e fresh found at in
      (run.after, run.returns, leaves run.holds)

  give_up-Runs :
      (w : World) (bus : Bool) (e : Execution)
      → e.status ≡ running
      → Tracked p w e w.timers e.status w
      → Runs (give_up p bus e) w (λ _ v. Tracked p w e w.timers dead_lettered v)
  unfolding give_up
  give_up-Runs w bus e at t = bind-Runs (look-Runs p w e (λ x. x.now) t) (λ now w₁ h.
      let (_, t₁) = h in
      bind-Runs (move-Runs p one_to_one w e failed _ (may_fail e.status at) t₁) (λ _ w₂ t₂.
        bind-Runs (row-Runs p w e other t₂) (λ a w₃ k.
          let (_, same, _, t₃) = k in route_to_dlq-Runs p one_to_one w e a same may_bury t₃)))

  gives_up :
      (w : World) (bus : Bool) (e : Execution) (task : Task)
      → get_execution e.id w.store ≡ some e
      → e.status ≡ running
      → get_task e.task_id w.store ≡ some task
      → task.max_retries < e.attempt
      → recover_execution p bus e.id w ≡ give_up p bus e w
  unfolding recover_execution effects
  gives_up w bus e task found at owned over =
      let flying : same_status e.status running ≡ true = ground arith in
      let long : ltb (task.max_retries + 1) (e.attempt + 1) ≡ true = ground arith in
      rw (found, flying, owned, long) refl

  -- Where the ids to come are new and all different, the recovery of a running execution without
  -- an attempt left returns, and leaves the execution dead-lettered and the timers as they were.
  pub recover_execution_buries :
      (w : World) (bus : Bool) (e : Execution) (task : Task)
      → IsFresh p w
      → get_execution e.id w.store ≡ some e
      → e.status ≡ running
      → get_task e.task_id w.store ≡ some task
      → task.max_retries < e.attempt
      → (v : World) × (recover_execution p bus e.id w ≡ (ok tt, v))
        × Leaves e dead_lettered w.timers v
  recover_execution_buries w bus e task fresh found at owned over =
      let run = give_up-Runs w bus e at (tracked p w e fresh found) in
      (run.after, gives_up w bus e task found at owned over ∙ run.returns, leaves run.holds)
