-- ===== src/Orchestrator/Lifecycle/Advance.antt =====
-- The relation between stores of packages/store that the sequences of calls are followed with:
-- the soundness of the tables, and the path of each execution along the state machine.
use baara_next.Base.{
  ℕ, Option, none, some, ◌≡◌, refl, ◌≢◌, ◌∙◌, sym, arith, inl, inr, Bool, true, false, All-imp,
  All-append_one, All-update, is_some, get_or, List, [], ◌∷◌,
}
use baara_next.Core.Status.{ExecutionStatus, queued, same_status→≡, same_status}
use baara_next.Core.Status.Graph.{here, then, claim, can_transition→⟶}
use baara_next.Core.Errors.{ok}
use baara_next.Core.Types.{
  Key, Text, Execution, ExecutionUpdates, HealthStatus, InputRequest, ThreadMessage,
}
use baara_next.Core.Events.{EventType}
use baara_next.Store.{Store, get_execution}
use baara_next.Store.Executions.{
  create_execution, new_execution, update_execution_status, with_status, update_execution_fields,
  with_fields, dequeue_execution, assign, is_waiting_in,
}
use baara_next.Store.Inputs.{create_input_request, respond_to_input, with_response}
use baara_next.Store.Threads.{link_execution_to_thread, append_thread_message}
use baara_next.Store.Inversion.{
  create_execution-eq-ok, update_execution_status-eq-ok, update_execution_fields-eq-ok,
  append_event-eq-ok, create_input_request-eq-ok, respond_to_input-eq-ok,
  link_execution_to_thread-eq-ok, append_thread_message-eq-ok, dequeue_execution_cases,
  find-first_in_order,
}
use baara_next.Store.Soundness.{
  IsSound, append-IsSound, create-IsSound, update-IsSound, requests-IsSound,
}
use baara_next.Store.Evolution.{
  Successor, Evolves, Evolves-same, Evolves-trans, Evolves-append, Evolves-update,
}
use baara_next.Orchestrator.EventHandler.{append_next, make_event}
use baara_next.Orchestrator.Frames.{IsStable}

abbrev pub Advances : Store → Store → Type 0
Advances s t = IsSound s → IsSound t × Evolves s t

created-Advances :
    (id task_id queue_name : Key) (priority scheduled_at attempt now : ℕ) (s t : Store)
    → create_execution id task_id queue_name priority scheduled_at attempt now s ≡ ok t
    → Advances s t
created-Advances id k q r a n m s t h v =
    let (free, owned, e) = create_execution-eq-ok id k q r a n m s t h in
    (
      create-IsSound s t (new_execution id k q r a n m) v free owned e,
      Evolves-append s t (new_execution id k q r a n m) (ground arith),
    )

-- A change of the row `k` that leaves its identity alone and moves its status along one edge or none.
update-Advances :
    (k : Key) (f : Execution → Execution) (s t : Store)
    → ((e : Execution) → (f e).id ≡ e.id)
    → ((e : Execution) → (f e).task_id ≡ e.task_id)
    → ((e : Execution) → get_execution k s ≡ some e → Successor e (f e))
    → t ≡ record s { executions = baara_next.Base.update (λ e. e.id) k f s.executions }
    → Advances s t
update-Advances k f s t same_id same_task g h v =
    (update-IsSound s t k f same_id same_task v h, Evolves-update k f same_id s t (ground arith) g)

moved-Advances :
    (id : Key) (status : ExecutionStatus) (u : ExecutionUpdates) (s t : Store)
    → update_execution_status id status u s ≡ ok t
    → Advances s t
moved-Advances id status u s t h =
    let (e, found, may, eq) = update_execution_status-eq-ok id status u s t h in
    update-Advances id (with_status status u) s t (λ x. refl) (λ x. refl)
      (λ x found'.
        let same : e ≡ x = ground arith in
        record {
          path = then (can_transition→⟶ x.status status (rw (← same) may)) here;
          same_id = refl;
          same_task = refl;
          same_queue = refl;
          same_priority = refl;
          same_attempt = refl;
          same_date = refl;
        })
      eq

still :
    (e e' : Execution)
    → e'.status ≡ e.status
    → e'.id ≡ e.id
    → e'.task_id ≡ e.task_id
    → e'.queue_name ≡ e.queue_name
    → e'.priority ≡ e.priority
    → e'.attempt ≡ e.attempt
    → e'.created_at ≡ e.created_at
    → Successor e e'
still e e' st i t q r a d = record {
  path = rw st here;
  same_id = i;
  same_task = t;
  same_queue = q;
  same_priority = r;
  same_attempt = a;
  same_date = d;
}

touched-Advances :
    (id : Key) (n : Option ℕ) (h : Option HealthStatus) (c : Option (Option Text)) (s t : Store)
    → update_execution_fields id n h c s ≡ ok t
    → Advances s t
touched-Advances id n h c s t e =
    update-Advances id (with_fields n h c) s t (λ x. refl) (λ x. refl)
      (λ x _. still x _ refl refl refl refl refl refl refl)
      (update_execution_fields-eq-ok id n h c s t e)

linked-Advances :
    (execution_id thread_id : Key) (s t : Store)
    → link_execution_to_thread execution_id thread_id s ≡ ok t
    → Advances s t
linked-Advances id k s t e =
    update-Advances id (λ (x : Execution). record x { thread_id = some k }) s t (λ x. refl)
      (λ x. refl) (λ x _. still x _ refl refl refl refl refl refl refl)
      (link_execution_to_thread-eq-ok id k s t e).1

logged-Advances :
    (id execution_id : Key) (now : ℕ) (type : EventType) (s t : Store)
    → append_next id execution_id now type s ≡ ok t
    → Advances s t
unfolding append_next
logged-Advances id execution_id now type s t h v =
    let e = make_event id execution_id now type s in
    let (_, owned, eq) = append_event-eq-ok e s t h in
    (append-IsSound s t e v owned refl eq, Evolves-same s t (ground arith))

asked-Advances : (r : InputRequest) (s t : Store) → create_input_request r s ≡ ok t → Advances s t
asked-Advances r s t h v =
    let (owned, _, eq) = create_input_request-eq-ok r s t h in
    (
      requests-IsSound s t _ v (All-append_one _ s.input_requests r v.requests_owned owned) eq,
      Evolves-same s t (ground arith),
    )

answered-Advances :
    (id : Key) (response : Text) (now : ℕ) (s t : Store)
    → respond_to_input id response now s ≡ ok t
    → Advances s t
answered-Advances id response now s t h v =
    let (r, _, eq) = respond_to_input-eq-ok id response now s t h in
    (
      requests-IsSound s t _ v
          (All-update (λ x. x.id) _ r.id (with_response response now) s.input_requests
            (λ x owned. owned) v.requests_owned)
          eq,
      Evolves-same s t (ground arith),
    )

posted-Advances :
    (m : ThreadMessage) (s t : Store) → append_thread_message m s ≡ ok t → Advances s t
posted-Advances m s t h v =
    let (_, _, eq) = append_thread_message-eq-ok m s t h in
    (
      rw eq (record {
        executions_distinct = v.executions_distinct;
        executions_owned = v.executions_owned;
        events_owned = v.events_owned;
        events_numbered = v.events_numbered;
        requests_owned = v.requests_owned;
      }),
      Evolves-same s t (ground arith),
    )

assign-Successor : (e : Execution) → same_status e.status queued ≡ true → Successor e (assign e)
assign-Successor e h = record {
  path = rw (same_status→≡ e.status queued h) (then claim here);
  same_id = refl;
  same_task = refl;
  same_queue = refl;
  same_priority = refl;
  same_attempt = refl;
  same_date = refl;
}

dequeued-Advances : (queue_name : Key) (s : Store) → Advances s (dequeue_execution queue_name s).1
dequeued-Advances queue_name s v = elim (dequeue_execution_cases queue_name s) [
  | inl e ↦ rw e (v, Evolves-same s s refl)
  | inr (row, picked, waits, e) ↦
      update-Advances row.id assign s _ (λ x. refl) (λ x. refl)
        (λ x found.
          let at_id =
            find-first_in_order (is_waiting_in queue_name) s.executions row v.executions_distinct
              picked in
          let same : row ≡ x = ground arith in rw (← same) (assign-Successor row (ground arith)))
        e v
]

Advances-trans : (s t u : Store) → Advances s t → Advances t u → Advances s u
Advances-trans s t u f g v =
    let (v', a) = f v in let (v'', b) = g v' in (v'', Evolves-trans s t u a b)

pub Advances-IsStable : IsStable Advances
Advances-IsStable = record {
  same = λ s v. (v, Evolves-same s s refl);
  trans = Advances-trans;
  created = created-Advances;
  moved = moved-Advances;
  touched = touched-Advances;
  dequeued = dequeued-Advances;
  logged = logged-Advances;
  asked = asked-Advances;
  answered = answered-Advances;
  linked = linked-Advances;
  posted = posted-Advances;
}
