-- ===== src/Agent/Service/Stuck.antt =====
-- What packages/agent/src/agent.ts leaves when no runtime takes a task.
use baara_next.Base.{List, ◌++◌, codes, ◌≡◌, refl, ◌∙◌, none, some, false, arith}
use baara_next.Core.Status.{assigned, running, waiting_for_input, same_status}
use baara_next.Core.Errors.{ok, err, invalid_state_transition}
use baara_next.Core.Types.{Key, Execution, ExecuteResult}
use baara_next.Store.{get_execution}
use baara_next.Orchestrator.World.{World, Platform, effects, pure, swallow}
use baara_next.Orchestrator.Service.Match.{TaskAssignment}
use baara_next.Orchestrator.Service.Complete.{handle_execution_complete, terminal_status}
use baara_next.Agent.Service.{
  AgentRuntime, select_runtime, execute_task, run_assignment, rescued, failure_of, sandbox_text,
}
use baara_next.Orchestrator.Outcomes.Runs.{bind_ok}

-- A report for an execution that is assigned, not started, is refused and changes nothing.
refused :
    (p : Platform) (id : Key) (w : World) (e : Execution) (r : ExecuteResult)
    → get_execution id w.store ≡ some e
    → e.status ≡ assigned
    → handle_execution_complete p id r w
      ≡ (err (invalid_state_transition assigned (terminal_status r.status) id), w)
unfolding handle_execution_complete effects
refused p id w e r found at =
    let waits : same_status e.status waiting_for_input ≡ false = ground arith in
    let runs : same_status e.status running ≡ false = ground arith in rw (found, waits, runs) cc

-- What is reported without a runtime.
abbrev no_runtime : Platform → TaskAssignment → ExecuteResult
no_runtime p a = failure_of (
    codes "No runtime registered for task \""
    ++ p.key_text a.task.name
    ++ codes "\" (sandbox: "
    ++ sandbox_text a.task.sandbox_type
    ++ codes ")")

gives_up :
    (p : Platform) (runtimes : List AgentRuntime) (a : TaskAssignment) (w : World)
    → select_runtime runtimes a.task ≡ none
    → execute_task p runtimes a w ≡ (ok (no_runtime p a), w)
unfolding execute_task pure
gives_up p runtimes a w unknown = rw unknown refl

-- An assignment that no runtime takes is given up without a trace: the failure that the agent reports
-- is refused, since the execution is only assigned, and so is the second report; the loop goes on and
-- the world is as it was, with the execution still assigned.
pub run_assignment_stuck :
    (p : Platform) (runtimes : List AgentRuntime) (a : TaskAssignment) (w : World) (e : Execution)
    → get_execution a.execution_id w.store ≡ some e
    → e.status ≡ assigned
    → select_runtime runtimes a.task ≡ none
    → run_assignment p runtimes a w ≡ (ok tt, w)
unfolding run_assignment rescued swallow
run_assignment_stuck p runtimes a w e found at unknown =
    let none_found = gives_up p runtimes a w unknown in
    let first =
      bind_ok (execute_task p runtimes a) (handle_execution_complete p a.execution_id) w w _
        none_found
      ∙ refused p a.execution_id w e (no_runtime p a) found at in
    rw first (rw (refused p a.execution_id w e (failure_of (p.error_text _)) found at) refl)
