-- ===== src/Orchestrator/Outcomes/Submission.antt =====
-- How `submitTask` of packages/orchestrator/src/orchestrator-service.ts ends.
use baara_next.Base.{
  ℕ, suc, ◌≡◌, refl, sym, ◌∙◌, true, Option, none, some, List, [], ◌∷◌, ◌++◌, arith, find, find-key,
  find-append, is_some, Option-cases, inl, inr, ==_refl,
}
use baara_next.Core.Status.{created, queued, can_transition}
use baara_next.Core.Errors.{Error, ok, other}
use baara_next.Core.Types.{Key, Task, Execution, no_updates}
use baara_next.Store.{Store, get_execution, get_task}
use baara_next.Store.Executions.{create_execution, new_execution}
use baara_next.Orchestrator.World.{
  World, Platform, random_uuid, seconds, on_store, gets, stored, need, or_throw, pure,
}
use baara_next.Orchestrator.Service.Submit.{submit_attempt, submit_task, find_task}
use baara_next.Orchestrator.Outcomes.Runs.{Runs, bind-Runs, bind_ok, step-Runs}
use baara_next.Orchestrator.Outcomes.Tracked.{IsFresh, Tracked, emit-Runs, move-Runs}
use baara_next.Orchestrator.Outcomes.Steps.{read-Runs, enqueue-Runs}

pub create_execution_ok :
    (id task_id queue_name : Key) (priority scheduled_at attempt now : ℕ) (s : Store)
    → get_execution id s ≡ none
    → is_some (get_task task_id s) ≡ true
    → create_execution id task_id queue_name priority scheduled_at attempt now s
      ≡ ok (record s {
        executions =
            s.executions
            ++ new_execution id task_id queue_name priority scheduled_at attempt now ∷ [];
      })
unfolding create_execution
create_execution_ok id k q r a n m s free there = rw (free, there) refl

find-last :
    (xs : List Execution) (x : Execution)
    → find (λ y. y.id) x.id xs ≡ none
    → find (λ y. y.id) x.id (xs ++ x ∷ []) ≡ some x
find-last xs x h =
    ground (arith, find-append (λ (y : Execution). y.id) x.id xs (x ∷ []), ==_refl x.id)

find-append-none :
    (k : Key) (xs : List Execution) (x : Execution)
    → find (λ y. y.id) k xs ≡ none
    → (x.id ≡ k → ⊥)
    → find (λ y. y.id) k (xs ++ x ∷ []) ≡ none
find-append-none k xs x h d = ground (arith, find-append (λ (y : Execution). y.id) k xs (x ∷ []))

pub need_found :
    {A : Type 0} (f : Store → Option A) (e : Error) (w : World) (a : A)
    → f w.store ≡ some a
    → need f e w ≡ (ok a, w)
unfolding need or_throw pure
need_found f e w a h = rw h refl

pub may_queue : can_transition created queued ≡ true
unfolding can_transition
may_queue = refl

module _ (p : Platform) (one_to_one : (m n : ℕ) → p.uuid m ≡ p.uuid n → m ≡ n) where
  -- The execution that a call of `createExecution` with a drawn id makes in a world.
  abbrev pub made : World → Task → (attempt : ℕ) → Execution
  made w task attempt =
      new_execution (p.uuid w.drawn) task.id task.target_queue task.priority w.now attempt
        (seconds w)

  abbrev pub with_made : World → Execution → World
  with_made w e = record w {
    drawn = suc w.drawn;
    store = record w.store { executions = w.store.executions ++ e ∷ [] };
  }

  -- The new execution is there, and later ids are new.
  pub made-Tracked :
      (w : World) (e : Execution)
      → IsFresh p w
      → e.id ≡ p.uuid w.drawn
      → e.status ≡ created
      → Tracked p w e w.timers created (with_made w e)
  made-Tracked w e fresh same at = record {
    fresh = record {
      no_event = λ n le. fresh.no_event n (omega arith);
      no_execution = λ n le.
          find-append-none (p.uuid n) w.store.executions e (fresh.no_execution n (omega arith))
            (λ clash.
              let equal : w.drawn ≡ n = one_to_one w.drawn n (sym same ∙ clash) in omega arith);
    };
    row = e;
    found = find-last w.store.executions e (rw same (fresh.no_execution w.drawn (omega arith)));
    at_status = at;
    same_id = refl;
    same_attempt = refl;
    same_task = refl;
    same_tasks = refl;
    same_timers = refl;
    same_now = refl;
  }

  -- What the caller of a submission gets: a new execution of the task in its queue.
  abbrev pub IsQueued : World → Task → (attempt : ℕ) → Execution → World → Type 0
  IsQueued w task attempt e v =
      (get_execution (p.uuid w.drawn) v.store ≡ some e)
      × (e.status ≡ queued)
      × (e.id ≡ p.uuid w.drawn)
      × (e.task_id ≡ task.id)
      × (e.attempt ≡ attempt)

  pub create_made :
      (w : World) (task : Task) (attempt : ℕ)
      → IsFresh p w
      → is_some (get_task task.id w.store) ≡ true
      → on_store
          (create_execution
            (p.uuid w.drawn)
            task.id
            task.target_queue
            task.priority
            w.now
            attempt
            (seconds w))
          (record w { drawn = suc w.drawn })
        ≡ (ok tt, with_made w (made w task attempt))
  unfolding on_store stored
  create_made w task attempt fresh there =
      rw
        (create_execution_ok (p.uuid w.drawn) task.id task.target_queue task.priority w.now attempt
          (seconds w) w.store (fresh.no_execution w.drawn (omega arith)) there)
        refl

  pub submit_attempt-Runs :
      (w : World) (task : Task) (attempt : ℕ)
      → IsFresh p w
      → is_some (get_task task.id w.store) ≡ true
      → Runs (submit_attempt p task attempt) w (λ e v. IsQueued w task attempt e v)
  unfolding submit_attempt random_uuid gets
  submit_attempt-Runs w task attempt fresh there =
      let e = made w task attempt in
      let t = made-Tracked w e fresh refl refl in
      step-Runs _ _ refl (
        step-Runs _ _ refl (
          step-Runs _ _ refl (
            step-Runs _ _ (create_made w task attempt fresh there) (
              bind-Runs (move-Runs p one_to_one w e queued no_updates may_queue t) (λ _ w₁ t₁.
                bind-Runs (emit-Runs p one_to_one w e _ t₁) (λ _ w₂ t₂.
                  bind-Runs (emit-Runs p one_to_one w e _ t₂) (λ _ w₃ t₃.
                    bind-Runs (enqueue-Runs p w e _ t₃) (λ _ w₄ t₄. read-Runs p w e other t₄))))))))

  named_task :
      (tasks : List Task) (name : Key) (task : Task)
      → find (λ t. t.name) name tasks ≡ some task
      → is_some (find (λ t. t.id) task.id tasks) ≡ true
  named_task [] name task h = ground arith
  named_task (x ∷ xs) name task h = ground (arith, ==_refl task.id, named_task xs name task)

  -- A task that is found by id or by name is in its table.
  pub found_task :
      (k : Key) (s : Store) (task : Task)
      → find_task k s ≡ some task
      → is_some (get_task task.id s) ≡ true
  found_task k s task h = elim (Option-cases (get_task k s)) [
    | inl missing ↦ named_task s.tasks k task (ground arith)
    | inr (x, found) ↦
        let same : x ≡ task = ground arith in
        let here : x.id ≡ k = find-key (λ (t : Task). t.id) k s.tasks x found in cc
  ]

  -- Where the ids to come are new and all different, the submission of a task that is there,
  -- under its id or its name, returns: the caller gets a first attempt of the task with a new
  -- id, which is in the store and queued.
  pub submit_task_queues :
      (w : World) (k : Key) (task : Task)
      → IsFresh p w
      → find_task k w.store ≡ some task
      → (e : Execution) × (v : World) × (submit_task p k w ≡ (ok e, v)) × IsQueued w task 1 e v
  unfolding submit_task
  submit_task_queues w k task fresh found =
      let run = submit_attempt-Runs w task 1 fresh (found_task k w.store task found) in
      (
        run.value,
        run.after,
        bind_ok _ _ w w task (need_found (find_task k) _ w task found) ∙ run.returns,
        run.holds,
      )
