-- ===== src/Store/Inversion.antt =====
-- What a statement of packages/store/src/sqlite-store.ts that succeeds has found and done.
use baara_next.Base.{
  ℕ, List, [], ◌∷◌, ◌++◌, Bool, true, false, Option, none, some, ◌≡◌, refl, arith, is_some, find,
  update, exists_in, Distinct, ==_refl, ◌⊎◌, inl, inr, Option-cases, keep,
}
use baara_next.Core.Status.{ExecutionStatus, can_transition}
use baara_next.Core.Errors.{ok}
use baara_next.Core.Types.{
  Key, Text, Execution, ExecutionUpdates, HealthStatus, InputRequest, ThreadMessage,
}
use baara_next.Core.Events.{Event}
use baara_next.Store.Schema.{Store, get_execution, get_task, get_thread}
use baara_next.Store.Executions.{
  create_execution, new_execution, update_execution_status, with_status, update_execution_fields,
  with_fields, dequeue_execution, first_in_order, is_waiting_in, assign,
}
use baara_next.Store.Events.{append_event, clashes}
use baara_next.Store.Inputs.{
  create_input_request, get_input_request, respond_to_input, with_response,
}
use baara_next.Store.Threads.{link_execution_to_thread, append_thread_message}

pub create_execution-eq-ok :
    (id task_id queue_name : Key) (priority scheduled_at attempt now : ℕ) (s t : Store)
    → create_execution id task_id queue_name priority scheduled_at attempt now s ≡ ok t
    → (get_execution id s ≡ none)
      × (is_some (get_task task_id s) ≡ true)
      × (t ≡ record s {
        executions =
            s.executions
            ++ new_execution id task_id queue_name priority scheduled_at attempt now ∷ [];
      })
unfolding create_execution
create_execution-eq-ok id k q r a n m s t h = ground arith

pub update_execution_status-eq-ok :
    (id : Key) (status : ExecutionStatus) (u : ExecutionUpdates) (s t : Store)
    → update_execution_status id status u s ≡ ok t
    → (e : Execution) × (get_execution id s ≡ some e)
      × (can_transition e.status status ≡ true)
      × (t ≡ record s { executions = update (λ e. e.id) id (with_status status u) s.executions })
unfolding update_execution_status
update_execution_status-eq-ok id status u s t h = elim (Option-cases (get_execution id s)) [
  | inl missing ↦ ground arith
  | inr (e, found) ↦ (e, found, ground arith, ground arith)
]

pub update_execution_fields-eq-ok :
    (id : Key) (n : Option ℕ) (h : Option HealthStatus) (c : Option (Option Text)) (s t : Store)
    → update_execution_fields id n h c s ≡ ok t
    → t ≡ record s { executions = update (λ e. e.id) id (with_fields n h c) s.executions }
unfolding update_execution_fields
update_execution_fields-eq-ok id n h c s t e = ground arith

pub append_event-eq-ok :
    (e : Event) (s t : Store)
    → append_event e s ≡ ok t
    → (exists_in (clashes e) s.events ≡ false)
      × (is_some (get_execution e.execution_id s) ≡ true)
      × (t ≡ record s { events = s.events ++ e ∷ [] })
unfolding append_event
append_event-eq-ok e s t h = ground arith

pub create_input_request-eq-ok :
    (r : InputRequest) (s t : Store)
    → create_input_request r s ≡ ok t
    → (is_some (get_execution r.execution_id s) ≡ true)
      × (find (λ x. x.id) r.id s.input_requests ≡ none)
      × (t ≡ record s { input_requests = s.input_requests ++ r ∷ [] })
unfolding create_input_request
create_input_request-eq-ok r s t h = ground arith

pub respond_to_input-eq-ok :
    (id : Key) (response : Text) (now : ℕ) (s t : Store)
    → respond_to_input id response now s ≡ ok t
    → (r : InputRequest) × (get_input_request id s ≡ some r)
      × (t ≡ record s {
        input_requests = update (λ r. r.id) r.id (with_response response now) s.input_requests;
      })
unfolding respond_to_input
respond_to_input-eq-ok id response now s t h = elim (Option-cases (get_input_request id s)) [
  | inl missing ↦ ground arith
  | inr (r, found) ↦ (r, found, ground arith)
]

pub link_execution_to_thread-eq-ok :
    (execution_id thread_id : Key) (s t : Store)
    → link_execution_to_thread execution_id thread_id s ≡ ok t
    → (is_some (get_thread thread_id s) ≡ true)
      × (t ≡ record s {
        executions =
            update
              (λ e. e.id)
              execution_id
              (λ (e : Execution). record e { thread_id = some thread_id })
              s.executions;
      })
unfolding link_execution_to_thread
link_execution_to_thread-eq-ok execution_id thread_id s t h = ground arith

pub append_thread_message-eq-ok :
    (m : ThreadMessage) (s t : Store)
    → append_thread_message m s ≡ ok t
    → (find (λ x. x.id) m.id s.thread_messages ≡ none)
      × (is_some (get_thread m.thread_id s) ≡ true)
      × (t ≡ record s { thread_messages = s.thread_messages ++ m ∷ [] })
unfolding append_thread_message
append_thread_message-eq-ok m s t h = ground arith

-- A row that the order picks is one of the rows.
pub first_in_order-keep :
    (p : Execution → Bool) (xs : List Execution) (e : Execution)
    → first_in_order (keep p xs) ≡ some e
    → p e ≡ true
unfolding first_in_order
first_in_order-keep p [] e h = cc
first_in_order-keep p (x ∷ xs) e h = ground (arith, first_in_order-keep p xs e)

-- Under distinct ids the row that the order picks is the row of its id.
pub find-first_in_order :
    (p : Execution → Bool) (xs : List Execution) (row : Execution)
    → Distinct (λ e. e.id) xs
    → first_in_order (keep p xs) ≡ some row
    → find (λ e. e.id) row.id xs ≡ some row
unfolding first_in_order
find-first_in_order p [] row d h = cc
find-first_in_order p (x ∷ xs) row d h =
    ground (arith, find-first_in_order p xs row d.1, ==_refl x.id)

-- A dequeue finds nothing, or assigns one row that waits in the queue.
pub dequeue_execution_cases :
    (queue_name : Key) (s : Store)
    → (dequeue_execution queue_name s ≡ (none, s))
      ⊎ ((row : Execution) × (first_in_order (keep (is_waiting_in queue_name) s.executions)
            ≡ some row)
          × (is_waiting_in queue_name row ≡ true)
          × ((dequeue_execution queue_name s).1
              ≡ record s { executions = update (λ e. e.id) row.id assign s.executions }))
unfolding dequeue_execution
dequeue_execution_cases queue_name s =
    elim (Option-cases (first_in_order (keep (is_waiting_in queue_name) s.executions))) [
      | inl missing ↦ inl (rw (missing, dequeue_execution) refl)
      | inr (row, found) ↦ inr (
        row,
        found,
        first_in_order-keep (is_waiting_in queue_name) s.executions row found,
        rw (found, dequeue_execution) refl,
      )
    ]
