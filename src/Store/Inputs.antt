-- ===== src/Store/Inputs.antt =====
-- The input requests of packages/store/src/sqlite-store.ts.
use baara_next.Base.{
  ℕ, List, [], ◌∷◌, ◌++◌, Bool, true, false, not, ◌&&◌, Option, none, some, if◌then◌else◌, ltb,
  ◌==◌, is_some, keep, find, update,
}
use baara_next.Core.Errors.{
  Result, ok, guard, or_err, constraint_failed, input_request_not_found, ◌>>=◌, ◌>>◌,
}
use baara_next.Core.Types.{Key, Text, InputRequest, InputStatus}
use baara_next.Store.Schema.{Store, get_execution}

-- `createInputRequest`
unfoldable pub create_input_request : InputRequest → Store → Result Store
create_input_request r s = do
  guard (not (is_some (find (λ x. x.id) r.id s.input_requests))) constraint_failed
  guard (is_some (get_execution r.execution_id s)) constraint_failed
  ok (record s { input_requests = s.input_requests ++ r ∷ [] })

abbrev pub is_pending : InputStatus → Bool
is_pending InputStatus.pending = true
is_pending _ = false

abbrev pub is_pending_for : Key → InputRequest → Bool
is_pending_for execution_id r = r.execution_id == execution_id && is_pending r.status

-- `ORDER BY created_at ASC LIMIT 1`; of the rows of one second the one inserted first.
abbrev pub oldest : List InputRequest → Option InputRequest
oldest [] = none
oldest (r ∷ rs) = elim (oldest rs) [
  | none ↦ some r
  | some x ↦ if ltb x.created_at r.created_at then some x else some r
]

-- `getInputRequest`
unfoldable pub get_input_request : Key → Store → Option InputRequest
get_input_request execution_id s = oldest (keep (is_pending_for execution_id) s.input_requests)

abbrev pub with_response : Text → ℕ → InputRequest → InputRequest
with_response response now r = record r {
  response = some response;
  status = InputStatus.responded;
  responded_at = some now;
}

-- `respondToInput`
unfoldable pub respond_to_input : Key → Text → (now : ℕ) → Store → Result Store
unfolding get_input_request
respond_to_input execution_id response now s = do
  pending ← or_err (get_input_request execution_id s) (input_request_not_found execution_id)
  ok (record s {
    input_requests = update (λ r. r.id) pending.id (with_response response now) s.input_requests;
  })

-- `getInputRequestById`
abbrev pub get_input_request_by_id : Key → Store → Option InputRequest
get_input_request_by_id id s = find (λ r. r.id) id s.input_requests
