-- ===== src/Tests/Dialogue.antt =====
-- A question to the user and its answer, a request for work and a direct run, on a small world.
use baara_next.Core.Types.{Key}
use baara_next.Orchestrator.Service.Run.{begin_direct}
use baara_next.Orchestrator.Outcomes.Submission.{made}
use baara_next.Orchestrator.Outcomes.Direct.{begin_direct_runs}
use baara_next.Tests.Sample.{report}
use baara_next.Base.{Option}
use baara_next.Core.Types.{direct_agent, transfer_queue}
use baara_next.Orchestrator.Service.Match.{TaskAssignment, match_task}
use baara_next.Orchestrator.Outcomes.Matching.{IsMatch, match_task_matches}
use baara_next.Tests.Sample.{store-IsSound}
use baara_next.Base.{◌≡◌, [], ◌∷◌, none, refl, arith}
use baara_next.Core.Status.{running, waiting_for_input}
use baara_next.Core.Errors.{ok}
use baara_next.Core.Types.{InputRequest}
use baara_next.Orchestrator.World.{World}
use baara_next.Orchestrator.Service.Input.{provide_input, request_input, new_request}
use baara_next.Orchestrator.Outcomes.Tracked.{IsFresh}
use baara_next.Orchestrator.Outcomes.Changes.{Leaves}
use baara_next.Orchestrator.Outcomes.Dialogue.{request_input_waits, provide_input_resumes}
use baara_next.Tests.Sample.{platform, uuid_one_to_one, attempt_of, world}

asked-IsFresh : IsFresh platform world
asked-IsFresh = record { no_event = λ n le. ground arith; no_execution = λ n le. ground arith }

request_input_waits_example :
    (v : World) × (request_input platform 30 (1 ∷ []) none world ≡ (ok tt, v))
    × Leaves (attempt_of 30 running 1 6) waiting_for_input [] v
request_input_waits_example =
    request_input_waits platform uuid_one_to_one world (attempt_of 30 running 1 6) (1 ∷ []) none
      asked-IsFresh refl refl refl

abbrev question : InputRequest
question = new_request platform 60 31 (1 ∷ []) none 7

abbrev asking : World
asking = record world { store = record world.store { input_requests = question ∷ [] } }

asking-IsFresh : IsFresh platform asking
asking-IsFresh = record {
  no_event = asked-IsFresh.no_event;
  no_execution = asked-IsFresh.no_execution;
}

provide_input_resumes_example :
    (v : World) × (provide_input platform 31 (2 ∷ []) asking ≡ (ok tt, v))
    × Leaves (attempt_of 31 waiting_for_input 1 6) running [] v
unfolding baara_next.Store.Inputs.get_input_request
provide_input_resumes_example =
    provide_input_resumes platform uuid_one_to_one asking (attempt_of 31 waiting_for_input 1 6)
      question (2 ∷ []) asking-IsFresh refl refl refl

match_task_matches_example :
    (o : Option TaskAssignment) × (v : World) × (match_task platform direct_agent world ≡ (ok o, v))
    × IsMatch world (transfer_queue ∷ []) o v
unfolding baara_next.Store.Queues.list_queues
match_task_matches_example =
    match_task_matches platform uuid_one_to_one world direct_agent asked-IsFresh store-IsSound

begin_direct_runs_example :
    (id : Key) × (v : World) × (begin_direct platform report world ≡ (ok id, v))
    × (id ≡ 100)
    × Leaves (made platform uuid_one_to_one world report 1) running [] v
begin_direct_runs_example =
    begin_direct_runs platform uuid_one_to_one world report asked-IsFresh refl
