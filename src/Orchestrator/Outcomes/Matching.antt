-- ===== src/Orchestrator/Outcomes/Matching.antt =====
-- How `matchTask` of packages/orchestrator/src/orchestrator-service.ts ends.
use baara_next.Base.{
  ℕ, ◌≡◌, refl, ◌∙◌, true, Option, none, some, List, [], ◌∷◌, arith, update, keep, map, exists_in,
  All, All-find, inl, inr, Option-cases, find-update_self, ◌==◌,
}
use baara_next.Core.Status.{queued, assigned, same_status→≡}
use baara_next.Core.Errors.{ok}
use baara_next.Core.Types.{Key, Task, Execution}
use baara_next.Store.{Store, get_execution, get_task}
use baara_next.Store.Executions.{dequeue_execution, is_waiting_in, assign}
use baara_next.Store.Queues.{QueueInfo, list_queues}
use baara_next.Store.Selection.{dequeue_execution_min}
use baara_next.Store.Soundness.{IsSound}
use baara_next.Orchestrator.World.{World, Platform, gets, look}
use baara_next.Orchestrator.QueueManager.{dequeue}
use baara_next.Orchestrator.Service.Match.{TaskAssignment, match_task, poll, hand_out, is_polled}
use baara_next.Orchestrator.Outcomes.Runs.{
  Runs, bind-Runs, step-Runs, pure-Runs, weaken-Runs, bind_ok,
}
use baara_next.Orchestrator.Outcomes.Tracked.{IsFresh, Tracked, emit-Runs, updated-IsFresh}

-- What an agent gets from the queues `names`: nothing, and then nothing waits in any of them, or an
-- execution that waited, with its task and its attempt, and which is now assigned.
abbrev pub IsMatch : World → (names : List Key) → Option TaskAssignment → World → Type 0
IsMatch w names none v =
    (v ≡ w) × All (λ name. keep (is_waiting_in name) w.store.executions ≡ []) names
IsMatch w names (some a) v =
    (row : Execution) × (e : Execution) × (get_execution a.execution_id w.store ≡ some row)
    × (row.status ≡ queued)
    × (exists_in (λ name. row.queue_name == name) names ≡ true)
    × (get_task row.task_id w.store ≡ some a.task)
    × (a.attempt ≡ row.attempt)
    × (get_execution a.execution_id v.store ≡ some e)
    × (e.status ≡ assigned)

waiting-queued : (name : Key) (e : Execution) → is_waiting_in name e ≡ true → e.status ≡ queued
waiting-queued name e h = same_status→≡ e.status queued (ground arith)

module _ (p : Platform) (one_to_one : (m n : ℕ) → p.uuid m ≡ p.uuid n → m ≡ n) where
  -- The world after a row has been taken from its queue.
  abbrev taken : World → Execution → World
  taken w row = record w {
    store = record w.store { executions = update (λ e. e.id) row.id assign w.store.executions };
  }

  taken-Tracked :
      (w : World) (row : Execution)
      → IsFresh p w
      → get_execution row.id w.store ≡ some row
      → Tracked p w (assign row) w.timers assigned (taken w row)
  taken-Tracked w row fresh there = record {
    fresh = updated-IsFresh p one_to_one w row w row.id assign (λ x. refl) fresh;
    row = assign row;
    found =
        rw
          (
            find-update_self (λ (x : Execution). x.id) row.id assign (λ x. refl) w.store.executions,
            there,
          )
          refl;
    at_status = refl;
    same_id = refl;
    same_attempt = refl;
    same_task = refl;
    same_tasks = refl;
    same_timers = refl;
    same_now = refl;
  }

  hand_out-Runs :
      (w : World) (agent : Key) (name : Key) (names : List Key) (row : Execution) (task : Task)
      → get_execution row.id w.store ≡ some row
      → is_waiting_in name row ≡ true
      → get_task row.task_id w.store ≡ some task
      → Tracked p w (assign row) w.timers assigned (taken w row)
      → Runs (hand_out p agent (assign row) task) (taken w row) (IsMatch w (name ∷ names))
  unfolding hand_out
  hand_out-Runs w agent name names row task there waits owned t =
      bind-Runs (emit-Runs p one_to_one w (assign row) _ t) (λ _ v t₁. pure-Runs _ (
        row,
        t₁.row,
        there,
        waiting-queued name row waits,
        ground arith,
        owned,
        refl,
        t₁.found,
        t₁.at_status,
      ))

  dequeue_result :
      (w : World) (name : Key) (o : Option Execution) (s : Store)
      → dequeue_execution name w.store ≡ (o, s)
      → dequeue name w ≡ (ok o, record w { store = s })
  unfolding dequeue
  dequeue_result w name o s h = rw h refl

  looked_up :
      (w : World) (row : Execution) (task : Task)
      → get_task row.task_id w.store ≡ some task
      → look (get_task (assign row).task_id) (taken w row) ≡ (ok (some task), taken w row)
  unfolding gets
  looked_up w row task h = rw h refl

  widened :
      (w v : World) (name : Key) (names : List Key) (o : Option TaskAssignment)
      → keep (is_waiting_in name) w.store.executions ≡ []
      → IsMatch w names o v
      → IsMatch w (name ∷ names) o v
  widened w v name names none empty (same, rest) = (same, (empty, rest))
  widened w v name names (some a) empty (row, e, there, at, listed, owned, same, found, now) =
      (row, e, there, at, ground arith, owned, same, found, now)

  owner :
      (w : World) (row : Execution)
      → IsSound w.store
      → get_execution row.id w.store ≡ some row
      → (task : Task) × (get_task row.task_id w.store ≡ some task)
  owner w row v there =
      let has =
        All-find (λ (x : Execution). x.id) _ row.id w.store.executions row v.executions_owned
          there in
      elim (Option-cases (get_task row.task_id w.store)) [
        | inl missing ↦ ground arith
        | inr found ↦ found
      ]

  poll-Runs :
      (w : World) (agent : Key) (names : List Key)
      → IsFresh p w
      → IsSound w.store
      → Runs (poll p agent names) w (IsMatch w names)
  unfolding poll
  poll-Runs w agent [] fresh v = pure-Runs none (refl, tt)
  poll-Runs w agent (name ∷ names) fresh v =
      elim (dequeue_execution_min name w.store v.executions_distinct) [
        | inl (empty, e) ↦
            step-Runs _ _ (dequeue_result w name none w.store e) (
              weaken-Runs (poll-Runs w agent names fresh v) (λ o u. widened w u name names o empty))
        | inr (row, there, waits, _, e) ↦
            let (task, owned) = owner w row v there in
            step-Runs _ _ (dequeue_result w name (some (assign row)) _ e) (
              step-Runs _ _ (looked_up w row task owned) (
                hand_out-Runs w agent name names row task there waits owned
                  (taken-Tracked w row fresh there)))
      ]

  -- In a sound store, and where the ids to come are new and all different, a request for work
  -- returns. The agent gets nothing, and nothing is changed, only if no execution waits in any
  -- queue but the internal ones; otherwise it gets an execution that waited in one, with its
  -- task and its attempt, which is then assigned. So no execution is ever found without its
  -- task.
  pub match_task_matches :
      (w : World) (agent : Key)
      → IsFresh p w
      → IsSound w.store
      → (o : Option TaskAssignment) × (v : World) × (match_task p agent w ≡ (ok o, v))
        × IsMatch w (map (λ (q : QueueInfo). q.name) (keep is_polled (list_queues w.store))) o v
  unfolding match_task gets
  match_task_matches w agent fresh v =
      let names = map (λ (q : QueueInfo). q.name) (keep is_polled (list_queues w.store)) in
      let run = poll-Runs w agent names fresh v in
      (run.value, run.after, bind_ok _ _ w w (list_queues w.store) refl ∙ run.returns, run.holds)
