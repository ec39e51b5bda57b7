-- ===== src/Server/Inputs.antt =====
-- How the routes of packages/server/src/routes answer to questions of agents and their answers.
use baara_next.Base.{
  suc, List, [], ◌∷◌, ◌++◌, true, false, Option, none, some, ◌≡◌, refl, find, is_some, find-append,
  ==_refl,
}
use baara_next.Core.Status.{waiting_for_input, can_transition}
use baara_next.Core.Errors.{ok, err, invalid_state_transition}
use baara_next.Core.Types.{Text, Execution, InputRequest, no_updates}
use baara_next.Store.{Store, get_execution}
use baara_next.Store.Executions.{update_execution_status}
use baara_next.Orchestrator.World.{World, Platform, effects, seconds}
use baara_next.Orchestrator.Service.Input.{new_request}
use baara_next.Orchestrator.Outcomes.Dialogue.{create_input_request_ok}
use baara_next.Server.Replies.{reply, pending}
use baara_next.Server.InternalRoutes.{post_input_request, post_input_poll}

waiting_refused :
    (s : Store) (e : Execution)
    → get_execution e.id s ≡ some e
    → can_transition e.status waiting_for_input ≡ false
    → update_execution_status e.id waiting_for_input no_updates s
      ≡ err (invalid_state_transition e.status waiting_for_input e.id)
unfolding update_execution_status
waiting_refused s e found stuck = rw (found, stuck) refl

module _ (p : Platform) where
  -- A request for input by an agent over HTTP for an execution that may not wait is refused, but the
  -- request stays in the store: it is pending, and polls are told so.
  pub post_input_request_orphan :
      (w : World) (e : Execution) (prompt : Text) (options : Option (List Text))
      → get_execution e.id w.store ≡ some e
      → can_transition e.status waiting_for_input ≡ false
      → find (λ r. r.id) (p.uuid w.drawn) w.store.input_requests ≡ none
      → let v : World = record w {
        drawn = suc w.drawn;
        store = record w.store {
          input_requests =
              w.store.input_requests
              ++ new_request p (p.uuid w.drawn) e.id prompt options (seconds w) ∷ [];
        };
      } in
        (post_input_request p e.id prompt options w
          ≡ (err (invalid_state_transition e.status waiting_for_input e.id), v))
        × (post_input_poll (p.uuid w.drawn) v ≡ (ok (reply 200 pending), v))
  unfolding post_input_request post_input_poll effects
  post_input_request_orphan w e prompt options found stuck free =
      let r = new_request p (p.uuid w.drawn) e.id prompt options (seconds w) in
      let there : is_some (get_execution e.id w.store) ≡ true = rw found refl in
      let made = create_input_request_ok r w.store free there in
      let asked = record w.store { input_requests = w.store.input_requests ++ r ∷ [] } in
      let barred = waiting_refused asked e found stuck in
      let shown : find (λ x. x.id) r.id asked.input_requests ≡ some r =
        rw
          (
            find-append (λ (x : InputRequest). x.id) r.id w.store.input_requests (r ∷ []),
            free,
            ==_refl r.id,
          )
          refl in
      (rw (made, barred) refl, rw shown refl)
