-- ===== src/Orchestrator/Outcomes/Tracked.antt =====
-- One execution followed through a handler of packages/orchestrator: its status, the timers and the
-- clock, while ids that are drawn are new.
use baara_next.Base.{
  ℕ, suc, ◌≤◌, ◌<◌, ◌≡◌, ◌≢◌, refl, sym, ◌∙◌, true, false, none, some, List, [], ◌∷◌, ◌++◌, arith,
  ◌==◌, exists_in, update, is_some, find-update_self, find-update-none,
}
use baara_next.Core.Status.{ExecutionStatus, can_transition}
use baara_next.Core.Errors.{ok}
use baara_next.Core.Types.{Key, Execution, ExecutionUpdates}
use baara_next.Core.Events.{Event, EventType}
use baara_next.Store.{Store, get_execution}
use baara_next.Store.Events.{append_event, clashes, max_seq, get_max_event_seq}
use baara_next.Store.Executions.{update_execution_status, with_status}
use baara_next.Orchestrator.World.{World, Timer, Platform, effects, on_store, random_uuid}
use baara_next.Orchestrator.EventHandler.{append_next, next_seq, emit, make_event}
use baara_next.Orchestrator.Outcomes.Runs.{Runs, store-Runs}

-- The ids that are still to be drawn are the id of no event and of no execution.
pub record IsFresh (p : Platform) (w : World) : Type 0 where
  pub no_event :
      (n : ℕ) → w.drawn ≤ n → exists_in (λ (v : Event). v.id == p.uuid n) w.store.events ≡ false
  pub no_execution : (n : ℕ) → w.drawn ≤ n → get_execution (p.uuid n) w.store ≡ none

-- `e` as it now stands, with the status `status`, beside the timers `timers`; the tasks and the clock
-- are those of `begin`.
pub record Tracked (p : Platform) (begin : World) (e : Execution) (timers : List Timer)
    (status : ExecutionStatus) (w : World) : Type 0 where
  pub fresh : IsFresh p w
  pub row : Execution
  pub found : get_execution e.id w.store ≡ some row
  pub at_status : row.status ≡ status
  pub same_id : row.id ≡ e.id
  pub same_attempt : row.attempt ≡ e.attempt
  pub same_task : row.task_id ≡ e.task_id
  pub same_tasks : w.store.tasks ≡ begin.store.tasks
  pub same_timers : w.timers ≡ timers
  pub same_now : w.now ≡ begin.now

-- The execution is where it was if its table, the events, the tasks and the clock are, and no id
-- is given back.
pub still :
    {p : Platform} {begin : World} {e : Execution} {ts ts' : List Timer} {s : ExecutionStatus}
    {w : World} (v : World)
    → Tracked p begin e ts s w
    → v.store.events ≡ w.store.events
    → v.store.executions ≡ w.store.executions
    → v.store.tasks ≡ w.store.tasks
    → w.drawn ≤ v.drawn
    → v.timers ≡ ts'
    → v.now ≡ w.now
    → Tracked p begin e ts' s v
still v t events executions tasks more timers now = record {
  fresh = record {
    no_event = λ n le. rw events (t.fresh.no_event n (omega arith));
    no_execution = λ n le. rw executions (t.fresh.no_execution n (omega arith));
  };
  row = t.row;
  found = rw executions t.found;
  at_status = t.at_status;
  same_id = t.same_id;
  same_attempt = t.same_attempt;
  same_task = t.same_task;
  same_tasks = tasks ∙ t.same_tasks;
  same_timers = timers;
  same_now = now ∙ t.same_now;
}

-- An event with a new id and a number above the others of its execution clashes with none.
no_clash :
    (e : Event) (es : List Event)
    → exists_in (λ (v : Event). v.id == e.id) es ≡ false
    → max_seq e.execution_id es < e.event_seq
    → exists_in (clashes e) es ≡ false
no_clash e [] h l = refl
no_clash e (x ∷ es) h l = ground (arith, no_clash e es)

append_next_ok :
    (id execution_id : Key) (now : ℕ) (type : EventType) (s : Store)
    → exists_in (λ (v : Event). v.id == id) s.events ≡ false
    → is_some (get_execution execution_id s) ≡ true
    → append_next id execution_id now type s
      ≡ ok (record s { events = s.events ++ make_event id execution_id now type s ∷ [] })
unfolding append_next append_event next_seq get_max_event_seq
append_next_ok id execution_id now type s free there =
    rw (no_clash (make_event id execution_id now type s) s.events free (omega arith), there) refl

pub update_execution_status_ok :
    (id : Key) (status : ExecutionStatus) (u : ExecutionUpdates) (s : Store) (x : Execution)
    → get_execution id s ≡ some x
    → can_transition x.status status ≡ true
    → update_execution_status id status u s
      ≡ ok (record s { executions = update (λ y. y.id) id (with_status status u) s.executions })
unfolding update_execution_status
update_execution_status_ok id status u s x found may = rw (found, may) refl

exists_in-append :
    (k : ℕ) (es : List Event) (e : Event)
    → exists_in (λ (v : Event). v.id == k) es ≡ false
    → e.id ≢ k
    → exists_in (λ (v : Event). v.id == k) (es ++ e ∷ []) ≡ false
exists_in-append k [] e h d = ground arith
exists_in-append k (x ∷ es) e h d = ground (arith, exists_in-append k es e)

module _ (p : Platform) (one_to_one : (m n : ℕ) → p.uuid m ≡ p.uuid n → m ≡ n) (begin : World)
    (e : Execution) where
  logged-IsFresh :
      (w : World) (v : Event)
      → IsFresh p w
      → v.id ≡ p.uuid w.drawn
      → IsFresh p (record w {
        drawn = suc w.drawn;
        store = record w.store { events = w.store.events ++ v ∷ [] };
      })
  logged-IsFresh w v f h = record {
    no_event = λ n le.
        exists_in-append (p.uuid n) w.store.events v (f.no_event n (omega arith))
          (λ same. let clash : w.drawn ≡ n = one_to_one w.drawn n (sym h ∙ same) in omega arith);
    no_execution = λ n le. f.no_execution n (omega arith);
  }

  -- An event can always be written.
  pub emit-Runs :
      {ts : List Timer} {s : ExecutionStatus} {w : World} (type : EventType)
      → Tracked p begin e ts s w
      → Runs (emit p e.id type) w (λ _ v. Tracked p begin e ts s v)
  unfolding emit random_uuid effects
  emit-Runs {ts} {s} {w} type t =
      let made = make_event (p.uuid w.drawn) e.id w.now type w.store in
      let there : is_some (get_execution e.id w.store) ≡ true = rw t.found refl in
      record {
        value = tt;
        after = record w {
          drawn = suc w.drawn;
          store = record w.store { events = w.store.events ++ made ∷ [] };
        };
        returns =
            rw
              (append_next_ok (p.uuid w.drawn) e.id w.now type w.store
                (t.fresh.no_event w.drawn (omega arith)) there)
              refl;
        holds = record {
          fresh = logged-IsFresh w made t.fresh refl;
          row = t.row;
          found = t.found;
          at_status = t.at_status;
          same_id = t.same_id;
          same_attempt = t.same_attempt;
          same_task = t.same_task;
          same_tasks = t.same_tasks;
          same_timers = t.same_timers;
          same_now = t.same_now;
        };
      }

  pub updated-IsFresh :
      (w : World) (k : Key) (f : Execution → Execution)
      → ((x : Execution) → (f x).id ≡ x.id)
      → IsFresh p w
      → IsFresh p (record w {
        store = record w.store { executions = update (λ x. x.id) k f w.store.executions };
      })
  updated-IsFresh w k f kept h = record {
    no_event = h.no_event;
    no_execution = λ n le.
        find-update-none (λ (x : Execution). x.id) k f kept (p.uuid n) w.store.executions
          (h.no_execution n le);
  }

  -- A change of the row that keeps its id and its attempt.
  pub changed :
      {ts : List Timer} {s s' : ExecutionStatus} (w : World) (f : Execution → Execution)
      → ((x : Execution) → (f x).id ≡ x.id)
      → ((x : Execution) → (f x).attempt ≡ x.attempt)
      → ((x : Execution) → (f x).task_id ≡ x.task_id)
      → ((x : Execution) → x.status ≡ s → (f x).status ≡ s')
      → Tracked p begin e ts s w
      → Tracked p begin e ts s' (record w {
        store = record w.store { executions = update (λ x. x.id) e.id f w.store.executions };
      })
  changed w f kept_id kept_attempt kept_task moved t = record {
    fresh = updated-IsFresh w e.id f kept_id t.fresh;
    row = f t.row;
    found =
        rw (find-update_self (λ (x : Execution). x.id) e.id f kept_id w.store.executions, t.found)
          refl;
    at_status = moved t.row t.at_status;
    same_id = kept_id t.row ∙ t.same_id;
    same_attempt = kept_attempt t.row ∙ t.same_attempt;
    same_task = kept_task t.row ∙ t.same_task;
    same_tasks = t.same_tasks;
    same_timers = t.same_timers;
    same_now = t.same_now;
  }

  -- A transition of the state machine always succeeds.
  pub move-Runs :
      {ts : List Timer} {s : ExecutionStatus} {w : World} (s' : ExecutionStatus)
      (u : ExecutionUpdates)
      → can_transition s s' ≡ true
      → Tracked p begin e ts s w
      → Runs (on_store (update_execution_status e.id s' u)) w (λ _ v. Tracked p begin e ts s' v)
  move-Runs {ts} {s} {w} s' u may t =
      let f = with_status s' u in
      let may' : can_transition t.row.status s' ≡ true = rw t.at_status may in
      store-Runs (update_execution_status e.id s' u)
        (record w.store { executions = update (λ x. x.id) e.id f w.store.executions })
        (update_execution_status_ok e.id s' u w.store t.row t.found may')
        (changed w f (λ x. refl) (λ x. refl) (λ x. refl) (λ x h. refl) t)
