-- ===== src/Store/Soundness.antt =====
-- The invariant of the tables, which the schema of packages/store/src/migrations.ts declares in
-- part, and its preservation by each change of a table.
use baara_next.Base.{
  List, [], ◌∷◌, ◌++◌, ◌+◌, max, true, none, ◌≡◌, arith, is_some, update, All, All-append_one,
  All-imp, All-update, Distinct, append-Distinct, update-Distinct, is_some-find-append,
  is_some-find-update,
}
use baara_next.Core.Types.{Key, Execution, InputRequest}
use baara_next.Core.Events.{Event}
use baara_next.Store.Schema.{Store, get_execution, get_task}
use baara_next.Store.Events.{max_seq}

-- Each event carries the next number of its execution, after the events in `seen`.
abbrev pub IsNumbered : (seen events : List Event) → Type 0
IsNumbered seen [] = Unit
IsNumbered seen (e ∷ es) =
    (e.event_seq ≡ max_seq e.execution_id seen + 1) × IsNumbered (seen ++ e ∷ []) es

pub record IsSound (s : Store) : Type 0 where
  pub executions_distinct : Distinct (λ e. e.id) s.executions
  pub executions_owned : All (λ (e : Execution). is_some (get_task e.task_id s) ≡ true) s.executions
  pub events_owned : All (λ (v : Event). is_some (get_execution v.execution_id s) ≡ true) s.events
  pub events_numbered : IsNumbered [] s.events
  pub requests_owned :
      All (λ (r : InputRequest). is_some (get_execution r.execution_id s) ≡ true) s.input_requests

pub max_seq-append :
    (k : Key) (xs ys : List Event) → max_seq k (xs ++ ys) ≡ max (max_seq k xs) (max_seq k ys)
max_seq-append k [] ys = omega arith
max_seq-append k (x ∷ xs) ys = grind (arith, max_seq-append k xs ys)

IsNumbered-append :
    (seen es : List Event) (e : Event)
    → IsNumbered seen es
    → e.event_seq ≡ max (max_seq e.execution_id seen) (max_seq e.execution_id es) + 1
    → IsNumbered seen (es ++ e ∷ [])
IsNumbered-append seen [] e h n = (omega arith, tt)
IsNumbered-append seen (x ∷ es) e h n = (
  h.0,
  IsNumbered-append (seen ++ x ∷ []) es e h.1
      (ground (arith, max_seq-append e.execution_id seen (x ∷ []))),
)

pub append-IsSound :
    (s t : Store) (e : Event)
    → IsSound s
    → is_some (get_execution e.execution_id s) ≡ true
    → e.event_seq ≡ max_seq e.execution_id s.events + 1
    → t ≡ record s { events = s.events ++ e ∷ [] }
    → IsSound t
append-IsSound s t e v owned next h = rw h (record {
  executions_distinct = v.executions_distinct;
  executions_owned = v.executions_owned;
  events_owned = All-append_one _ s.events e v.events_owned owned;
  events_numbered = IsNumbered-append [] s.events e v.events_numbered (omega arith);
  requests_owned = v.requests_owned;
})

-- A new execution of a known task, under an id that is free.
pub create-IsSound :
    (s t : Store) (e : Execution)
    → IsSound s
    → get_execution e.id s ≡ none
    → is_some (get_task e.task_id s) ≡ true
    → t ≡ record s { executions = s.executions ++ e ∷ [] }
    → IsSound t
create-IsSound s t e v free owned h = rw h (record {
  executions_distinct = append-Distinct (λ x. x.id) s.executions e v.executions_distinct free;
  executions_owned = All-append_one _ s.executions e v.executions_owned owned;
  events_owned =
      All-imp _ _ s.events
        (λ x. is_some-find-append (λ y. y.id) x.execution_id s.executions (e ∷ [])) v.events_owned;
  events_numbered = v.events_numbered;
  requests_owned =
      All-imp _ _ s.input_requests
        (λ x. is_some-find-append (λ y. y.id) x.execution_id s.executions (e ∷ []))
        v.requests_owned;
})

-- A change of a row that keeps its id and its task.
pub update-IsSound :
    (s t : Store) (k : Key) (f : Execution → Execution)
    → ((e : Execution) → (f e).id ≡ e.id)
    → ((e : Execution) → (f e).task_id ≡ e.task_id)
    → IsSound s
    → t ≡ record s { executions = update (λ e. e.id) k f s.executions }
    → IsSound t
update-IsSound s t k f same_id same_task v h = rw h (record {
  executions_distinct = update-Distinct (λ x. x.id) k f same_id s.executions v.executions_distinct;
  executions_owned =
      All-update (λ x. x.id) _ k f s.executions (λ e owned. rw (same_task e) owned)
        v.executions_owned;
  events_owned =
      All-imp _ _ s.events
        (λ x. is_some-find-update (λ y. y.id) k f same_id x.execution_id s.executions)
        v.events_owned;
  events_numbered = v.events_numbered;
  requests_owned =
      All-imp _ _ s.input_requests
        (λ x. is_some-find-update (λ y. y.id) k f same_id x.execution_id s.executions)
        v.requests_owned;
})

-- New or changed requests of known executions.
pub requests-IsSound :
    (s t : Store) (rs : List InputRequest)
    → IsSound s
    → All (λ (r : InputRequest). is_some (get_execution r.execution_id s) ≡ true) rs
    → t ≡ record s { input_requests = rs }
    → IsSound t
requests-IsSound s t rs v owned h = rw h (record {
  executions_distinct = v.executions_distinct;
  executions_owned = v.executions_owned;
  events_owned = v.events_owned;
  events_numbered = v.events_numbered;
  requests_owned = owned;
})
