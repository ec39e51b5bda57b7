-- ===== src/Store/Events.antt =====
-- The events of packages/store/src/sqlite-store.ts.
use baara_next.Base.{
  ℕ, List, [], ◌∷◌, ◌++◌, Bool, not, ◌&&◌, ◌||◌, Option, none, some, if◌then◌else◌, ltb, ◌==◌,
  is_some, keep, max, exists_in, take,
}
use baara_next.Core.Errors.{Result, ok, guard, constraint_failed, ◌>>◌}
use baara_next.Core.Types.{Key}
use baara_next.Core.Events.{Event}
use baara_next.Store.Schema.{Store, get_execution}

-- A row that `events.id` or `UNIQUE(execution_id, event_seq)` lets stand beside no row like `e`.
abbrev pub clashes : Event → Event → Bool
clashes e x = x.id == e.id || x.execution_id == e.execution_id && x.event_seq == e.event_seq

-- `appendEvent`
unfoldable pub append_event : Event → Store → Result Store
append_event e s = do
  guard (not (exists_in (clashes e) s.events)) constraint_failed
  guard (is_some (get_execution e.execution_id s)) constraint_failed
  ok (record s { events = s.events ++ e ∷ [] })

-- `COALESCE(MAX(event_seq), 0)` over the events of one execution.
abbrev pub max_seq : Key → List Event → ℕ
max_seq execution_id [] = 0
max_seq execution_id (e ∷ es) =
    if e.execution_id == execution_id
    then max e.event_seq (max_seq execution_id es)
    else max_seq execution_id es

-- `getMaxEventSeq`
unfoldable pub get_max_event_seq : Key → Store → ℕ
get_max_event_seq execution_id s = max_seq execution_id s.events

-- `ORDER BY event_seq ASC`
abbrev pub insert_by_seq : Event → List Event → List Event
insert_by_seq e [] = e ∷ []
insert_by_seq e (x ∷ xs) =
    if ltb x.event_seq e.event_seq then x ∷ insert_by_seq e xs else e ∷ x ∷ xs

abbrev pub by_seq : List Event → List Event
by_seq [] = []
by_seq (e ∷ es) = insert_by_seq e (by_seq es)

-- `opts?.afterSeq !== undefined`
abbrev pub is_after : Option ℕ → Event → Bool
is_after none e = Bool.true
is_after (some n) e = ltb n e.event_seq

-- `opts?.limit !== undefined`
abbrev pub at_most {ℓ} : {A : Type ℓ} → Option ℕ → List A → List A
at_most none xs = xs
at_most (some n) xs = take n xs

-- `listEvents`
unfoldable pub list_events : Key → Option ℕ → Option ℕ → Store → List Event
list_events execution_id after_seq n s =
    at_most n (by_seq (keep (λ e. e.execution_id == execution_id && is_after after_seq e) s.events))
