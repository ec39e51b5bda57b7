-- ===== src/Orchestrator/Frames/Service.antt =====
-- Stable relations across the methods of packages/orchestrator/src/orchestrator-service.ts.
use baara_next.Base.{ℕ, Option, none, some, List, [], ◌∷◌, Bool}
use baara_next.Core.Types.{Key, Text, Task, Execution, ExecuteResult, Thread, TaskMessage}
use baara_next.Store.{Store}
use baara_next.Orchestrator.World.{Platform, Action}
use baara_next.Orchestrator.Service.Submit.{
  submit_attempt, submit_task, cancel_execution, retry_execution,
}
use baara_next.Orchestrator.Service.Complete.{
  post_message, report_to, route_output, retry_with_backoff, retry_or_bury, settle, finish_with,
  handle_execution_complete,
}
use baara_next.Orchestrator.Service.Run.{begin_direct}
use baara_next.Orchestrator.Service.Recover.{
  give_up, latest_checkpoint, read_checkpoint, keep_checkpoint, resume, recover_for, recover_found,
  recover_execution,
}
use baara_next.Orchestrator.Service.Match.{
  TaskAssignment, fail_orphan, hand_out, assign_to, take_found, poll, match_task, start_execution,
  beat, heartbeat,
}
use baara_next.Orchestrator.Service.Input.{provide_input, notify_thread, notify, request_input}
use baara_next.Orchestrator.Frames.Rules.{IsStable, Keeps, bind-Keeps}
use baara_next.Orchestrator.Frames.Statements.{statements}
use baara_next.Orchestrator.Frames.Queues.{schedule_retry-Keeps, route_to_dlq-Keeps}

module _ {R : Store → Store → Type 0} (stable : IsStable R) (p : Platform) where
  submit_attempt-Keeps : (t : Task) (n : ℕ) → Keeps R (submit_attempt p t n)
  unfolding submit_attempt
  submit_attempt-Keeps t n = search statements depth 40

  pub submit_task-Keeps : (id : Key) → Keeps R (submit_task p id)
  unfolding submit_task
  submit_task-Keeps id = search (statements, submit_attempt-Keeps) depth 20

  pub cancel_execution-Keeps : (id : Key) → Keeps R (cancel_execution p id)
  unfolding cancel_execution
  cancel_execution-Keeps id = search statements depth 30

  pub retry_execution-Keeps : (id : Key) → Keeps R (retry_execution p id)
  unfolding retry_execution
  retry_execution-Keeps id = search (statements, submit_attempt-Keeps) depth 20

  post_message-Keeps : (id : Key) (content : Text) → Keeps R (post_message p id content)
  unfolding post_message
  post_message-Keeps id content = search statements depth 20

  report_to-Keeps :
      (o : Option Thread) (t : Option Task) (e : Execution) (r : ExecuteResult)
      → Keeps R (report_to p o t e r)
  report_to-Keeps none t e r = search statements
  report_to-Keeps (some thread) t e r = search (statements, post_message-Keeps) depth 20

  route_output-Keeps :
      (t : Option Task) (e : Execution) (r : ExecuteResult) → Keeps R (route_output p t e r)
  unfolding route_output
  route_output-Keeps t e r = search (statements, report_to-Keeps) depth 20

  retry_with_backoff-Keeps : (e : Execution) → Keeps R (retry_with_backoff p e)
  unfolding retry_with_backoff
  retry_with_backoff-Keeps e = search (statements, schedule_retry-Keeps) depth 20

  retry_or_bury-Keeps : (t : Option Task) (e : Execution) → Keeps R (retry_or_bury p t e)
  retry_or_bury-Keeps none e = route_to_dlq-Keeps stable p e
  retry_or_bury-Keeps (some t) e =
      search (statements, retry_with_backoff-Keeps, route_to_dlq-Keeps) depth 20

  settle-Keeps : (id : Key) (t : Option Task) → Keeps R (settle p id t)
  unfolding settle
  settle-Keeps id t = search (statements, retry_or_bury-Keeps) depth 20

  finish_with-Keeps :
      (id : Key) (t : Option Task) (e : Execution) (r : ExecuteResult)
      → Keeps R (finish_with p id t e r)
  unfolding finish_with
  finish_with-Keeps id t e r = search (statements, route_output-Keeps, settle-Keeps) depth 30

  pub handle_execution_complete-Keeps :
      (id : Key) (r : ExecuteResult) → Keeps R (handle_execution_complete p id r)
  unfolding handle_execution_complete
  handle_execution_complete-Keeps id r = search (statements, finish_with-Keeps) depth 30

  pub begin_direct-Keeps : (t : Task) → Keeps R (begin_direct p t)
  unfolding begin_direct
  begin_direct-Keeps t = search statements depth 50

  module _ (bus : Bool) where
    give_up-Keeps : (e : Execution) → Keeps R (give_up p bus e)
    unfolding give_up
    give_up-Keeps e = search (statements, route_to_dlq-Keeps) depth 20

    latest_checkpoint-Keeps : (o : Option TaskMessage) → Keeps R (latest_checkpoint p bus o)
    latest_checkpoint-Keeps none = search statements
    latest_checkpoint-Keeps (some m) = search statements depth 20

    read_checkpoint-Keeps : (id : Key) → Keeps R (read_checkpoint p bus id)
    read_checkpoint-Keeps id = search (statements, latest_checkpoint-Keeps) depth 20

    keep_checkpoint-Keeps : (id : Key) (o : Option Text) → Keeps R (keep_checkpoint p bus id o)
    keep_checkpoint-Keeps id none = search statements
    keep_checkpoint-Keeps id (some text) = search statements

    resume-Keeps : (e : Execution) (t : Task) → Keeps R (resume p bus e t)
    unfolding resume
    resume-Keeps e t = search (statements, read_checkpoint-Keeps, keep_checkpoint-Keeps) depth 50

    recover_for-Keeps : (e : Execution) (o : Option Task) → Keeps R (recover_for p bus e o)
    recover_for-Keeps e none = search statements
    recover_for-Keeps e (some t) = search (statements, give_up-Keeps, resume-Keeps) depth 20

    recover_found-Keeps : (o : Option Execution) → Keeps R (recover_found p bus o)
    recover_found-Keeps none = search statements
    recover_found-Keeps (some e) = search (statements, recover_for-Keeps) depth 20

    pub recover_execution-Keeps : (id : Key) → Keeps R (recover_execution p bus id)
    unfolding recover_execution
    recover_execution-Keeps id = search (statements, recover_found-Keeps) depth 20

  fail_orphan-Keeps : (e : Execution) → Keeps R (fail_orphan p e)
  unfolding fail_orphan
  fail_orphan-Keeps e = search statements depth 20

  hand_out-Keeps : (agent : Key) (e : Execution) (t : Task) → Keeps R (hand_out p agent e t)
  unfolding hand_out
  hand_out-Keeps agent e t = search statements depth 20

  module _ (agent : Key) (rest : Action (Option TaskAssignment)) (rest-Keeps : Keeps R rest) where
    assign_to-Keeps : (e : Execution) (o : Option Task) → Keeps R (assign_to p agent rest e o)
    assign_to-Keeps e none = bind-Keeps stable (fail_orphan-Keeps e) (λ _. rest-Keeps)
    assign_to-Keeps e (some t) = hand_out-Keeps agent e t

    take_found-Keeps : (o : Option Execution) → Keeps R (take_found p agent rest o)
    take_found-Keeps none = rest-Keeps
    take_found-Keeps (some e) = search (statements, assign_to-Keeps) depth 20

  poll-Keeps : (agent : Key) (names : List Key) → Keeps R (poll p agent names)
  unfolding poll
  poll-Keeps agent [] = search statements
  poll-Keeps agent (name ∷ names) =
      let found = take_found-Keeps agent (poll p agent names) (poll-Keeps agent names) in
      search (statements, found) depth 20

  pub match_task-Keeps : (agent : Key) → Keeps R (match_task p agent)
  unfolding match_task
  match_task-Keeps agent = search (statements, poll-Keeps) depth 20

  pub start_execution-Keeps : (id : Key) → Keeps R (start_execution p id)
  unfolding start_execution
  start_execution-Keeps id = search statements depth 30

  beat-Keeps : (o : Option Execution) (id : Key) (n : ℕ) → Keeps R (beat o id n)
  beat-Keeps none id n = search statements
  beat-Keeps (some e) id n = search statements

  pub heartbeat-Keeps : (id : Key) (n : ℕ) → Keeps R (heartbeat id n)
  unfolding heartbeat
  heartbeat-Keeps id n = search (statements, beat-Keeps) depth 20

  pub provide_input-Keeps : (id : Key) (response : Text) → Keeps R (provide_input p id response)
  unfolding provide_input
  provide_input-Keeps id response = search statements depth 30

  notify_thread-Keeps : (o : Option Thread) (content : Text) → Keeps R (notify_thread p o content)
  notify_thread-Keeps none content = search statements
  notify_thread-Keeps (some thread) content = post_message-Keeps thread.id content

  notify-Keeps :
      (e : Execution) (prompt : Text) (options : Option (List Text))
      → Keeps R (notify p e prompt options)
  unfolding notify
  notify-Keeps e prompt options = search (statements, notify_thread-Keeps) depth 20

  pub request_input-Keeps :
      (id : Key) (prompt : Text) (options : Option (List Text))
      → Keeps R (request_input p id prompt options)
  unfolding request_input
  request_input-Keeps id prompt options = search (statements, notify-Keeps) depth 30
