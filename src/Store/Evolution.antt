-- ===== src/Store/Evolution.antt =====
-- How the statements of packages/store/src/sqlite-store.ts change an execution that is there.
use baara_next.Base.{
  [], ◌∷◌, ◌++◌, false, some, ◌≡◌, refl, ◌∙◌, arith, update, inl, inr, Bool-cases, ◌==◌,
  find-update_self, find-update_ne, find-append,
}
use baara_next.Core.Status.Graph.{◌⟶*◌, here, ⟶*-trans}
use baara_next.Core.Types.{Key, Execution}
use baara_next.Store.Schema.{Store, get_execution}

-- What an execution may have become: its id, task, queue, priority, attempt and date are the same,
-- and its status has moved along edges of the state machine, if at all.
pub record Successor (e e' : Execution) : Type 0 where
  pub path : e.status ⟶* e'.status
  pub same_id : e'.id ≡ e.id
  pub same_task : e'.task_id ≡ e.task_id
  pub same_queue : e'.queue_name ≡ e.queue_name
  pub same_priority : e'.priority ≡ e.priority
  pub same_attempt : e'.attempt ≡ e.attempt
  pub same_date : e'.created_at ≡ e.created_at

-- Every execution of the store before is there after, and has become a successor.
pub record Evolves (s t : Store) : Type 0 where
  pub kept :
      (id : Key) (e : Execution)
      → get_execution id s ≡ some e
      → (e' : Execution) × (get_execution id t ≡ some e') × Successor e e'

pub Successor-refl : (e : Execution) → Successor e e
Successor-refl e = record {
  path = here;
  same_id = refl;
  same_task = refl;
  same_queue = refl;
  same_priority = refl;
  same_attempt = refl;
  same_date = refl;
}

Successor-trans : {e f g : Execution} → Successor e f → Successor f g → Successor e g
Successor-trans a b = record {
  path = ⟶*-trans a.path b.path;
  same_id = b.same_id ∙ a.same_id;
  same_task = b.same_task ∙ a.same_task;
  same_queue = b.same_queue ∙ a.same_queue;
  same_priority = b.same_priority ∙ a.same_priority;
  same_attempt = b.same_attempt ∙ a.same_attempt;
  same_date = b.same_date ∙ a.same_date;
}

-- A statement that leaves the table of executions alone.
pub Evolves-same : (s t : Store) → t.executions ≡ s.executions → Evolves s t
Evolves-same s t h = record { kept = λ id e found. (e, rw h found, Successor-refl e) }

pub Evolves-trans : (s t u : Store) → Evolves s t → Evolves t u → Evolves s u
Evolves-trans s t u a b = record {
  kept = λ id e found.
      let (f, found', p) = a.kept id e found in
      let (g, found'', q) = b.kept id f found' in (g, found'', Successor-trans p q);
}

pub Evolves-append :
    (s t : Store) (e : Execution) → t.executions ≡ s.executions ++ e ∷ [] → Evolves s t
Evolves-append s t e h = record {
  kept = λ id x found. (
    x,
    ground (arith, find-append (λ (y : Execution). y.id) id s.executions (e ∷ [])),
    Successor-refl x,
  );
}

module _ (k : Key) (f : Execution → Execution) (kept_id : (e : Execution) → (f e).id ≡ e.id)
    (s t : Store) (h : t.executions ≡ update (λ e. e.id) k f s.executions) where
  found_self : (e : Execution) → get_execution k s ≡ some e → get_execution k t ≡ some (f e)
  found_self e found = rw h (rw (find-update_self (λ e. e.id) k f kept_id s.executions, found) refl)

  found_other :
      (id : Key) (e : Execution)
      → (id == k) ≡ false
      → get_execution id s ≡ some e
      → get_execution id t ≡ some e
  found_other id e other found =
      rw h (find-update_ne (λ e. e.id) k f kept_id id s.executions (ground arith) ∙ found)

  -- A row of one id is changed to a successor.
  pub Evolves-update :
      ((e : Execution) → get_execution k s ≡ some e → Successor e (f e)) → Evolves s t
  Evolves-update g = record {
    kept = λ id e found. elim (Bool-cases (id == k)) [
      | inl self ↦
          let same : id ≡ k = ground arith in
          let found' : get_execution k s ≡ some e = rw (← same) found in
          (f e, rw same (found_self e found'), g e found')
      | inr other ↦ (e, found_other id e other found, Successor-refl e)
    ];
  }
