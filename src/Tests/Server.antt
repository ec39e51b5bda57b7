-- ===== src/Tests/Server.antt =====
-- An answer for an execution that is not there, and a second question of an execution that waits.
use baara_next.Base.{[], ◌∷◌, ◌≡◌, ◌≢◌, none, some, refl, suc}
use baara_next.Core.Status.{waiting_for_input}
use baara_next.Core.Errors.{ok, err, execution_not_found, invalid_state_transition}
use baara_next.Orchestrator.World.{World}
use baara_next.Orchestrator.Service.Input.{new_request}
use baara_next.Server.Replies.{given, reply, failure, pending}
use baara_next.Server.InternalRoutes.{post_input_request, post_input_poll}
use baara_next.Server.Inputs.{post_input_request_orphan}
use baara_next.Server.Conflicts.{post_input_no_conflict}
use baara_next.Tests.Sample.{platform, attempt_of, world}

post_input_no_conflict_example : (reply 404 (failure (execution_not_found 99))).status ≢ 409
unfolding baara_next.Server.ExecutionRoutes.post_input
    baara_next.Orchestrator.Service.Input.provide_input baara_next.Orchestrator.World.effects
    baara_next.Orchestrator.World.and_then baara_next.Orchestrator.World.or_throw
post_input_no_conflict_example =
    post_input_no_conflict platform world 99 (given (some (2 ∷ [])))
      (reply 404 (failure (execution_not_found 99))) refl

abbrev left_over : World
left_over = record world {
  drawn = suc world.drawn;
  store = record world.store { input_requests = new_request platform 100 31 (1 ∷ []) none 10 ∷ [] };
}

post_input_request_orphan_example :
    (post_input_request platform 31 (1 ∷ []) none world
      ≡ (err (invalid_state_transition waiting_for_input waiting_for_input 31), left_over))
    × (post_input_poll 100 left_over ≡ (ok (reply 200 pending), left_over))
unfolding baara_next.Core.Status.can_transition
post_input_request_orphan_example =
    post_input_request_orphan platform world (attempt_of 31 waiting_for_input 1 6) (1 ∷ []) none
      refl refl refl
