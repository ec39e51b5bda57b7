-- ===== src/Orchestrator/Outcomes/Settling.antt =====
-- What becomes of an execution whose run has ended, from the terminal status on.
use baara_next.Base.{
  ℕ, ◌+◌, ◌≡◌, refl, subst, Bool, true, false, some, List, [], ◌∷◌, ◌++◌, arith, remove, Bool-cases,
  inl, inr, ◌||◌,
}
use baara_next.Core.Status.{
  ExecutionStatus, can_transition, running, completed, failed, timed_out, cancelled,
  retry_scheduled, dead_lettered, waiting_for_input, same_status,
}
use baara_next.Core.Errors.{other}
use baara_next.Core.Types.{Task, Execution, ExecuteResult, ResultStatus, no_updates}
use baara_next.Orchestrator.World.{World, Timer, Platform, when}
use baara_next.Orchestrator.Retry.{
  schedule_retry, route_to_dlq, should_retry, calculate_delay, default_retry_config,
}
use baara_next.Orchestrator.Service.Complete.{
  retry_with_backoff, settle, finish_with, route_output, terminal_status, completion,
}
use baara_next.Orchestrator.Outcomes.Runs.{
  Runs, weaken-Runs, bind-Runs, skip-Runs, when-Runs, swallow-Runs,
}
use baara_next.Orchestrator.Outcomes.Tracked.{Tracked, emit-Runs, move-Runs}
use baara_next.Orchestrator.Outcomes.Steps.{
  row-Runs, visibility-Runs, draw-Runs, look-Runs, timer-Runs,
}
use baara_next.Orchestrator.Outcomes.Routing.{route_output-Saves}

-- The timers of a retry: one of its own, which ends after the delay.
abbrev pub retry_timers : World → Execution → (draw : ℕ) → Platform → List Timer
retry_timers w e draw p =
    remove (λ x. x.execution_id) e.id w.timers
    ++ (record {
      execution_id = e.id;
      fire_at = w.now + calculate_delay e.attempt default_retry_config p.scale (p.random draw);
      next_attempt = e.attempt + 1;
    })
      ∷ []

same_retry :
    (a e : Execution) (t : Task) → a.attempt ≡ e.attempt → should_retry a t ≡ should_retry e t
unfolding should_retry
same_retry a e t h = rw h refl

may_settle :
    (s : ExecutionStatus)
    → (same_status s failed || same_status s timed_out) ≡ true
    → (can_transition s retry_scheduled ≡ true) × (can_transition s dead_lettered ≡ true)
unfolding can_transition
may_settle s h = (ground arith, ground arith)

pub may_resume : (s : ExecutionStatus) → s ≡ waiting_for_input → can_transition s running ≡ true
unfolding can_transition
may_resume s h = ground arith

may_finish : (st : ResultStatus) → can_transition running (terminal_status st) ≡ true
unfolding can_transition
may_finish ResultStatus.completed = refl
may_finish _ = refl

module _ (p : Platform) (one_to_one : (m n : ℕ) → p.uuid m ≡ p.uuid n → m ≡ n) (begin : World)
    (e : Execution) where
  schedule_retry-Runs :
      {ts : List Timer} {s : ExecutionStatus} {w : World} (a : Execution) (delay : ℕ)
      → a.id ≡ e.id
      → a.attempt ≡ e.attempt
      → can_transition s retry_scheduled ≡ true
      → Tracked p begin e ts s w
      → Runs (schedule_retry p a delay) w (λ _ v.
        Tracked p begin e
          (remove (λ x. x.execution_id) e.id ts
            ++ (record {
              execution_id = e.id;
              fire_at = begin.now + delay;
              next_attempt = e.attempt + 1;
            })
              ∷ [])
          retry_scheduled
          v)
  unfolding schedule_retry
  schedule_retry-Runs a delay same_id same_attempt may t =
      rw (same_id, same_attempt)
        (bind-Runs (move-Runs p one_to_one begin e retry_scheduled no_updates may t) (λ _ w₁ t₁.
          bind-Runs (emit-Runs p one_to_one begin e _ t₁)
            (λ _ w₂ t₂. timer-Runs p begin e delay (e.attempt + 1) t₂)))

  pub route_to_dlq-Runs :
      {ts : List Timer} {s : ExecutionStatus} {w : World} (a : Execution)
      → a.id ≡ e.id
      → can_transition s dead_lettered ≡ true
      → Tracked p begin e ts s w
      → Runs (route_to_dlq p a) w (λ _ v. Tracked p begin e ts dead_lettered v)
  unfolding route_to_dlq
  route_to_dlq-Runs a same_id may t = rw same_id (
      bind-Runs (move-Runs p one_to_one begin e dead_lettered no_updates may t)
        (λ _ w₁ t₁. emit-Runs p one_to_one begin e _ t₁))

  -- Where a failure goes.
  abbrev pub Settled : (retry : Bool) → World → Type 0
  Settled true v = (k : ℕ) × Tracked p begin e (retry_timers begin e k p) retry_scheduled v
  Settled false v = Tracked p begin e begin.timers dead_lettered v

  -- A retry that waits for a time.
  abbrev Waits : (delay : ℕ) → World → Type 0
  Waits delay v =
      Tracked p begin e
        (remove (λ x. x.execution_id) e.id begin.timers
          ++ (record {
            execution_id = e.id;
            fire_at = begin.now + delay;
            next_attempt = e.attempt + 1;
          })
            ∷ [])
        retry_scheduled v

  settle-Runs :
      {s : ExecutionStatus} {w : World} (task : Task)
      → can_transition s retry_scheduled ≡ true
      → can_transition s dead_lettered ≡ true
      → Tracked p begin e begin.timers s w
      → Runs (settle p e.id (some task)) w (λ _ v. Settled (should_retry e task) v)
  unfolding settle retry_with_backoff
  settle-Runs task may_retry may_bury t = bind-Runs (row-Runs p begin e other t) (λ a w₁ h.
      let (_, same_id, same_attempt, t₁) = h in
      elim (Bool-cases (should_retry e task)) [
        | inl again ↦
            rw (same_retry a e task same_attempt, again)
              (bind-Runs (draw-Runs p begin e t₁) (λ random w₂ d.
                let (drawn, t₂) = d in
                let wait = calculate_delay a.attempt default_retry_config p.scale random in
                let same_wait : wait
                    ≡ calculate_delay e.attempt default_retry_config p.scale (p.random w₁.drawn) =
                  rw (same_attempt, drawn) refl in
                weaken-Runs (schedule_retry-Runs a wait same_id same_attempt may_retry t₂)
                  (λ _ v k. (w₁.drawn, subst (λ d. Waits d v) same_wait k))))
        | inr over ↦
            rw (same_retry a e task same_attempt, over) (route_to_dlq-Runs a same_id may_bury t₁)
      ])

  abbrev pub Ended : ResultStatus → (retry : Bool) → World → Type 0
  Ended ResultStatus.completed retry v = Tracked p begin e begin.timers completed v
  Ended ResultStatus.cancelled retry v = Tracked p begin e begin.timers cancelled v
  Ended _ retry v = Settled retry v

  last-Runs :
      {w : World} (task : Task) (st : ResultStatus)
      → Tracked p begin e begin.timers (terminal_status st) w
      → Runs
          (when
            (same_status (terminal_status st) failed || same_status (terminal_status st) timed_out)
            (settle p e.id (some task)))
          w
          (λ _ v. Ended st (should_retry e task) v)
  last-Runs task ResultStatus.completed t = skip-Runs _ false refl t
  last-Runs task ResultStatus.cancelled t = skip-Runs _ false refl t
  last-Runs task ResultStatus.failed t =
      when-Runs _ true refl
        (settle-Runs task (may_settle failed refl).0 (may_settle failed refl).1 t)
  last-Runs task ResultStatus.timed_out t =
      when-Runs _ true refl
        (settle-Runs task (may_settle timed_out refl).0 (may_settle timed_out refl).1 t)

  pub finish_with-Runs :
      {w : World} (task : Task) (r : ExecuteResult)
      → Tracked p begin e begin.timers running w
      → Runs (finish_with p e.id (some task) e r) w (λ _ v. Ended r.status (should_retry e task) v)
  unfolding finish_with
  finish_with-Runs task r t = bind-Runs (look-Runs p begin e (λ w. w.now) t) (λ now w₁ h₁.
      let (_, t₁) = h₁ in
      bind-Runs
        (move-Runs p one_to_one begin e (terminal_status r.status) (completion now r)
          (may_finish r.status) t₁)
        (λ _ w₂ t₂. bind-Runs (emit-Runs p one_to_one begin e _ t₂) (λ _ w₃ t₃.
          bind-Runs (visibility-Runs p begin e (terminal_status r.status) t₃) (λ _ w₄ t₄.
            bind-Runs
              (swallow-Runs (route_output p (some task) e r)
                ((route_output-Saves p one_to_one begin e (some task) r).across w₄ t₄))
              (λ _ w₅ t₅. last-Runs task r.status t₅)))))
