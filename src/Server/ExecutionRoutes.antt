-- ===== src/Server/ExecutionRoutes.antt =====
-- The routes of packages/server/src/routes/executions.ts but for the logs.
use baara_next.Base.{ℕ, Option, none, some, or_else, codes, [], ◌∷◌}
use baara_next.Core.Status.{ExecutionStatus}
use baara_next.Core.Types.{Key, Text}
use baara_next.Core.Errors.{execution_not_found, other}
use baara_next.Store.{get_execution}
use baara_next.Store.Executions.{list_all_executions, list_executions, get_pending_input_executions}
use baara_next.Store.Events.{list_events}
use baara_next.Orchestrator.World.{Platform, Action, pure, throw, look, ◌>>=◌}
use baara_next.Orchestrator.Service.Submit.{cancel_execution, retry_execution}
use baara_next.Orchestrator.Service.Input.{provide_input}
use baara_next.Server.Replies.{
  Reply, RequestBody, malformed, null_body, given, reply, accepted, one_execution, many_executions,
  many_events, failure, complaint, answering, cancel_errors, execution_errors, input_errors, capped,
}

-- `GET /pending-input`
unfoldable pub get_pending_input : Action Reply
get_pending_input = do
  executions ← look get_pending_input_executions
  pure (reply 200 (many_executions executions))

-- `GET /`; a status that is not one is left out.
unfoldable pub get_executions :
    (task_id : Option Key) → Option ExecutionStatus → (limit : Option ℕ) → Action Reply
get_executions none status limit = do
  executions ← look (list_all_executions status (or_else (capped 1000 limit) (some 50)))
  pure (reply 200 (many_executions executions))
get_executions (some task_id) status limit = do
  executions ← look (list_executions task_id status (capped 1000 limit))
  pure (reply 200 (many_executions executions))

-- `GET /:id`
unfoldable pub get_execution_by_id : Key → Action Reply
get_execution_by_id id = do
  execution ← look (get_execution id)
  pure (elim execution [
    | none ↦ reply 404 (failure (execution_not_found id))
    | some e ↦ reply 200 (one_execution e)
  ])

-- `GET /:id/events`
unfoldable pub get_events : Key → (after_seq limit : Option ℕ) → Action Reply
get_events id after_seq limit = do
  events ← look (list_events id after_seq (capped 500 limit))
  pure (reply 200 (many_events events))

module _ (p : Platform) where
  -- `POST /:id/cancel`
  unfoldable pub post_cancel : Key → Action Reply
  post_cancel id = answering cancel_errors (λ _. reply 200 accepted) (cancel_execution p id)

  -- `POST /:id/retry`
  unfoldable pub post_retry : Key → Action Reply
  post_retry id =
      answering execution_errors (λ e. reply 200 (one_execution e)) (retry_execution p id)

  -- `POST /:id/input`, with the response of the body, if it is a text; the in-process transport is
  -- told afterwards.
  unfoldable pub post_input : Key → RequestBody (Option Text) → Action Reply
  post_input id malformed = pure (reply 400 (complaint (codes "Invalid JSON body")))
  post_input id null_body = throw other
  post_input id (given none) = pure (reply 400 (complaint (codes "response is required")))
  post_input id (given (some [])) = pure (reply 400 (complaint (codes "response is required")))
  post_input id (given (some (c ∷ cs))) =
      answering input_errors (λ _. reply 200 accepted) (provide_input p id (c ∷ cs))
