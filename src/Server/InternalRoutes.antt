-- ===== src/Server/InternalRoutes.antt =====
-- The routes of packages/server/src/routes/internal.ts, which agents call over HTTP.
use baara_next.Base.{ℕ, List, Option, none, some}
use baara_next.Core.Status.{waiting_for_input}
use baara_next.Core.Types.{Key, Text, ExecuteResult, InputRequest, InputStatus, no_updates}
use baara_next.Store.Executions.{update_execution_status}
use baara_next.Store.Inputs.{create_input_request, get_input_request_by_id}
use baara_next.Orchestrator.World.{
  Platform, Action, pure, look, gets, on_store, seconds, random_uuid, ◌>>=◌, ◌>>◌,
}
use baara_next.Orchestrator.Service.Match.{match_task, start_execution, heartbeat}
use baara_next.Orchestrator.Service.Complete.{handle_execution_complete}
use baara_next.Orchestrator.Service.Input.{new_request}
use baara_next.Server.Replies.{
  Reply, Body, reply, accepted, requested, responded, timed_out, pending, assignment,
}

-- `POST /input-poll`: what a request is answered with.
abbrev pub poll_body : Option InputRequest → Body
poll_body none = pending
poll_body (some r) = elim r.status [
  | InputStatus.responded ↦ responded r.response
  | InputStatus.timed_out ↦ timed_out
  | InputStatus.pending ↦ pending
]

unfoldable pub post_input_poll : (input_request_id : Key) → Action Reply
post_input_poll id = do
  request ← look (get_input_request_by_id id)
  pure (reply 200 (poll_body request))

-- `POST /heartbeat`
unfoldable pub post_heartbeat : (execution_id : Key) → (turn_count : ℕ) → Action Reply
post_heartbeat execution_id turn_count = do
  heartbeat execution_id turn_count
  pure (reply 200 accepted)

module _ (p : Platform) where
  -- `POST /poll`
  unfoldable pub post_poll : (agent_id : Key) → Action Reply
  post_poll agent_id = do found ← match_task p agent_id; pure (reply 200 (assignment found))

  -- `POST /start`
  unfoldable pub post_start : (execution_id : Key) → Action Reply
  post_start execution_id = do start_execution p execution_id; pure (reply 200 accepted)

  -- `POST /complete`
  unfoldable pub post_complete : (execution_id : Key) → ExecuteResult → Action Reply
  post_complete execution_id result = do
    handle_execution_complete p execution_id result
    pure (reply 200 accepted)

  -- `POST /input-request`
  unfoldable pub post_input_request :
      (execution_id : Key) → (prompt : Text) → Option (List Text) → Action Reply
  post_input_request execution_id prompt options = do
    id ← random_uuid p
    stamp ← gets seconds
    on_store (create_input_request (new_request p id execution_id prompt options stamp))
    on_store (update_execution_status execution_id waiting_for_input no_updates)
    pure (reply 200 (requested id))
