-- ===== src/Server/Replies.antt =====
-- The replies of the routes in packages/server/src/routes. What a handler throws becomes a 500 in
-- `onError` of packages/server/src/app.ts; here it is the error of the action.
use baara_next.Base.{ℕ, List, Option, none, some, map_some, min}
use baara_next.Core.Errors.{
  Error, Result, ok, err, task_not_found, execution_not_found, input_request_not_found,
  invalid_state_transition, duplicate_entity,
}
use baara_next.Core.Types.{Key, Text, Execution, Task}
use baara_next.Core.Events.{Event}
use baara_next.Store.Queues.{QueueInfo}
use baara_next.Orchestrator.Service.Match.{TaskAssignment}
use baara_next.Orchestrator.World.{Action}

-- The JSON of a reply; a `failure` has the message of the error, a `complaint` a text of the route.
pub data Body : Type 0 where
  accepted pending timed_out : Body
  requested : (input_request_id : Key) → Body
  responded : (response : Option Text) → Body
  one_task : Task → Body
  many_tasks : List Task → Body
  one_execution : Execution → Body
  many_executions : List Execution → Body
  many_events : List Event → Body
  one_queue : QueueInfo → Body
  many_queues : List QueueInfo → Body
  assignment : Option TaskAssignment → Body
  failure : Error → Body
  complaint : (message : Text) → Body

pub record Reply : Type 0 where
  pub status : ℕ
  pub body : Body

abbrev pub reply : ℕ → Body → Reply
reply status body = record { status = status; body = body }

-- The body of a request: no JSON, null, or something else. Every route reads a field of it, and that
-- throws on null.
pub data RequestBody (A : Type 0) : Type 0 where
  malformed null_body : RequestBody A
  given : A → RequestBody A

-- The errors that the `catch` blocks answer, and with which status; others are thrown on.
abbrev pub task_errors : Error → Option ℕ
task_errors (task_not_found id) = some 404
task_errors e = none

-- `err.message.includes("already exists")`
abbrev pub create_errors : Error → Option ℕ
create_errors (duplicate_entity name) = some 409
create_errors e = none

abbrev pub execution_errors : Error → Option ℕ
execution_errors (execution_not_found id) = some 404
execution_errors e = none

abbrev pub cancel_errors : Error → Option ℕ
cancel_errors (execution_not_found id) = some 404
cancel_errors (invalid_state_transition a b id) = some 409
cancel_errors e = none

abbrev pub input_errors : Error → Option ℕ
input_errors (execution_not_found id) = some 404
input_errors (input_request_not_found id) = some 409
input_errors e = none

abbrev pub refusal : Option ℕ → Error → Result Reply
refusal none e = err e
refusal (some status) e = ok (reply status (failure e))

abbrev pub answer {ℓ} : {A : Type ℓ} → (Error → Option ℕ) → (A → Reply) → Result A → Result Reply
answer status_of f (ok a) = ok (f a)
answer status_of f (err e) = refusal (status_of e) e

-- `try { … } catch` around an action of the orchestrator; what it has written stays written.
abbrev pub answering : {A : Type 0} → (Error → Option ℕ) → (A → Reply) → Action A → Action Reply
answering status_of f m w = (answer status_of f (m w).0, (m w).1)

-- A query parameter that is a number, and at most `hi`; one that is no number is left out.
abbrev pub capped : (hi : ℕ) → Option ℕ → Option ℕ
capped hi n = map_some (λ k. min k hi) n
