-- ===== src/Orchestrator/Service/Complete.antt =====
-- `handleExecutionComplete` of packages/orchestrator/src/orchestrator-service.ts, and the output
-- routing in it.
use baara_next.Base.{
  ℕ, ◌+◌, not, ◌||◌, Option, none, some, if◌then◌else◌, or_else, get_or, [], ◌++◌, ◌==◌, codes,
  shorten, map_some,
}
use baara_next.Core.Status.{
  ExecutionStatus, running, waiting_for_input, completed, cancelled, failed, timed_out, same_status,
}
use baara_next.Core.Types.{
  Key, Text, Task, Execution, ExecutionUpdates, ExecuteResult, ResultStatus, no_updates,
  main_thread_id, Thread, agent,
}
use baara_next.Core.Errors.{execution_not_found, invalid_state_transition, other}
use baara_next.Store.{Store, get_task, get_execution, get_thread}
use baara_next.Store.Executions.{update_execution_status}
use baara_next.Store.Threads.{link_execution_to_thread, append_thread_message}
use baara_next.Orchestrator.World.{
  Platform, Action, throw, done, gets, look, need, when, swallow, ◌>>=◌, ◌>>◌, on_store, seconds,
  random_uuid, math_random,
}
use baara_next.Orchestrator.EventHandler.{emit_terminal_from_result}
use baara_next.Orchestrator.QueueManager.{enqueue_visibility}
use baara_next.Orchestrator.Retry.{
  should_retry, calculate_delay, default_retry_config, schedule_retry, route_to_dlq,
}

-- `terminalStatus`
abbrev pub terminal_status : ResultStatus → ExecutionStatus
terminal_status ResultStatus.completed = completed
terminal_status ResultStatus.cancelled = cancelled
terminal_status ResultStatus.timed_out = timed_out
terminal_status ResultStatus.failed = failed

-- The columns that are written with the terminal status.
abbrev pub completion : (now : ℕ) → ExecuteResult → ExecutionUpdates
completion now r = record no_updates {
  completed_at = some (some now);
  duration_ms = some (some r.duration_ms);
  output = map_some some r.output;
  error = map_some some r.error;
  input_tokens = map_some some r.input_tokens;
  output_tokens = map_some some r.output_tokens;
}

abbrev pub route_to : Option Task → Key
route_to none = main_thread_id
route_to (some t) = get_or t.target_thread_id main_thread_id

-- The thread that a task reports to; the main thread stands in for one that is gone.
abbrev pub report_thread : Option Task → Store → Option Thread
report_thread task s =
    or_else (get_thread (route_to task) s)
      (if route_to task == main_thread_id then none else get_thread main_thread_id s)

abbrev pub task_label : Platform → Option Task → Execution → Text
task_label p none execution = p.key_text execution.task_id
task_label p (some t) execution = p.key_text t.name

abbrev pub attempt_limit : Option Task → ℕ
attempt_limit none = 1
attempt_limit (some t) = t.max_retries + 1

abbrev pub status_text : ResultStatus → Text
status_text ResultStatus.completed = codes "completed"
status_text ResultStatus.cancelled = codes "cancelled"
status_text ResultStatus.timed_out = codes "timed_out"
status_text ResultStatus.failed = codes "failed"

-- A snippet of a text that is there and not empty.
abbrev pub snippet : (heading : Text) (n : ℕ) → Option Text → Text
snippet heading n none = []
snippet heading n (some []) = []
snippet heading n (some text) = heading ++ shorten n text

-- `summaryContent`
unfoldable pub summary : Platform → Option Task → Execution → ExecuteResult → Text
summary p task execution r =
    let head = codes "Task \"" ++ (task_label p task execution ++ codes "\" ") in
    let attempt =
      codes " (attempt "
      ++ (p.decimal execution.attempt
          ++ (codes "/" ++ (p.decimal (attempt_limit task) ++ codes ")"))) in
    let success =
      head
      ++ (codes "completed in "
          ++ (p.tenths r.duration_ms
              ++ (codes "s." ++ snippet (codes "\nOutput: ") 500 r.output))) in
    let failure =
      head
      ++ (status_text r.status
          ++ (codes " after "
              ++ (p.tenths r.duration_ms
                  ++ (codes "s"
                      ++ (attempt ++ (codes "." ++ snippet (codes "\nError: ") 300 r.error)))))) in
    elim r.status [ ResultStatus.completed ↦ success | _ ↦ failure ]

unfoldable pub no_tool_calls : Text
no_tool_calls = codes "[]"

module _ (p : Platform) where
  -- `appendThreadMessage` with the role of the agent.
  unfoldable pub post_message : (thread_id : Key) (content : Text) → Action (Unit {0})
  post_message thread_id content = do
    id ← random_uuid p
    stamp ← gets seconds
    on_store (
        append_thread_message (record {
          id = id;
          thread_id = thread_id;
          role = agent;
          content = content;
          tool_calls = no_tool_calls;
          created_at = stamp;
        }))

  abbrev pub report_to : Option Thread → Option Task → Execution → ExecuteResult → Action (Unit {0})
  report_to none task execution r = done
  report_to (some thread) task execution r = do
    on_store (link_execution_to_thread execution.id thread.id)
    post_message thread.id (summary p task execution r)

  -- The `try` block of the output routing.
  unfoldable pub route_output : Option Task → Execution → ExecuteResult → Action (Unit {0})
  unfolding post_message
  route_output task execution r = do
    thread ← look (report_thread task)
    report_to thread task execution r

  unfoldable pub retry_with_backoff : Execution → Action (Unit {0})
  retry_with_backoff e = do
    random ← math_random p
    schedule_retry p e (calculate_delay e.attempt default_retry_config p.scale random)

  abbrev pub retry_or_bury : Option Task → Execution → Action (Unit {0})
  retry_or_bury none e = route_to_dlq p e
  retry_or_bury (some t) e = if should_retry e t then retry_with_backoff e else route_to_dlq p e

  -- The retry or the dead letter at the end, from the execution as it now stands.
  unfoldable pub settle : (execution_id : Key) → Option Task → Action (Unit {0})
  unfolding retry_with_backoff
  settle execution_id task = do
    updated ← need (get_execution execution_id) other
    retry_or_bury task updated

  -- The second half of `handleExecutionComplete`, from the terminal status on.
  unfoldable pub finish_with :
      (execution_id : Key) → Option Task → Execution → ExecuteResult → Action (Unit {0})
  unfolding route_output settle
  finish_with execution_id task execution r = do
    now ← gets (λ w. w.now)
    let status = terminal_status r.status
    on_store (update_execution_status execution_id status (completion now r))
    emit_terminal_from_result p execution_id r
    enqueue_visibility execution_id status
    swallow (route_output task execution r)
    when (same_status status failed || same_status status timed_out) (settle execution_id task)

  -- `handleExecutionComplete`; the guard reads the status that the execution had at the beginning.
  unfoldable pub handle_execution_complete :
      (execution_id : Key) → ExecuteResult → Action (Unit {0})
  unfolding finish_with
  handle_execution_complete execution_id r = do
    execution ← need (get_execution execution_id) (execution_not_found execution_id)
    task ← look (get_task execution.task_id)
    when (same_status execution.status waiting_for_input)
        (on_store (update_execution_status execution_id running no_updates))
    when (not (same_status execution.status running))
        (throw (invalid_state_transition execution.status (terminal_status r.status) execution_id))
    finish_with execution_id task execution r
