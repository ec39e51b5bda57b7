-- ===== src/Orchestrator/Service/Input.antt =====
-- `provideInput` and `requestInput` of packages/orchestrator/src/orchestrator-service.ts.
use baara_next.Base.{ℕ, List, [], ◌++◌, Option, none, some, join, codes}
use baara_next.Core.Status.{running, waiting_for_input}
use baara_next.Core.Types.{
  Key, Text, Task, Execution, InputRequest, InputStatus, Thread, no_updates,
}
use baara_next.Core.Errors.{execution_not_found, other}
use baara_next.Store.{get_task, get_execution}
use baara_next.Store.Executions.{update_execution_status}
use baara_next.Store.Inputs.{create_input_request, get_input_request, respond_to_input}
use baara_next.Orchestrator.World.{
  Platform, Action, done, gets, look, need, swallow, ◌>>=◌, ◌>>◌, on_store, seconds, random_uuid,
}
use baara_next.Orchestrator.EventHandler.{emit_input_requested, emit_input_provided}
use baara_next.Orchestrator.Service.Complete.{report_thread, task_label, post_message}

-- `optionsHint`
abbrev pub options_hint : Option (List Text) → Text
options_hint none = []
options_hint (some []) = []
options_hint (some options) = codes "\n\nSuggested responses: " ++ join (codes " | ") options

-- The text of the approval request.
unfoldable pub input_notice :
    Platform → Option Task → Execution → (prompt : Text) → Option (List Text) → Text
input_notice p task execution prompt options =
    codes "Task \""
    ++ (task_label p task execution
        ++ (codes "\" needs your input:\n\n"
            ++ (prompt
                ++ (options_hint options
                    ++ codes
                        "\n\nRespond via the execution detail panel or use the provide_input tool."))))

abbrev pub default_input_timeout : ℕ
default_input_timeout = 300000

module _ (p : Platform) where
  -- `provideInput`
  unfoldable pub provide_input : (execution_id : Key) (response : Text) → Action (Unit {0})
  provide_input execution_id response = do
    _ ← need (get_execution execution_id) (execution_not_found execution_id)
    req ← need (get_input_request execution_id) other
    stamp ← gets seconds
    on_store (respond_to_input execution_id response stamp)
    on_store (update_execution_status execution_id running no_updates)
    emit_input_provided p execution_id req.id response

  abbrev pub notify_thread : Option Thread → (content : Text) → Action (Unit {0})
  notify_thread none content = done
  notify_thread (some thread) content = post_message p thread.id content

  -- The `try` block of the notification.
  unfoldable pub notify : Execution → (prompt : Text) → Option (List Text) → Action (Unit {0})
  notify execution prompt options = do
    task ← look (get_task execution.task_id)
    thread ← look (report_thread task)
    notify_thread thread (input_notice p task execution prompt options)

  abbrev pub new_request :
      (id execution_id : Key) (prompt : Text) → Option (List Text) → (now : ℕ) → InputRequest
  new_request id execution_id prompt options now = record {
    id = id;
    execution_id = execution_id;
    prompt = prompt;
    options = options;
    context = none;
    response = none;
    status = InputStatus.pending;
    timeout_ms = default_input_timeout;
    created_at = now;
    responded_at = none;
  }

  -- `requestInput`
  unfoldable pub request_input :
      (execution_id : Key) (prompt : Text) → Option (List Text) → Action (Unit {0})
  unfolding notify
  request_input execution_id prompt options = do
    execution ← need (get_execution execution_id) (execution_not_found execution_id)
    id ← random_uuid p
    stamp ← gets seconds
    on_store (create_input_request (new_request id execution_id prompt options stamp))
    on_store (update_execution_status execution_id waiting_for_input no_updates)
    emit_input_requested p execution_id id prompt options
    swallow (notify execution prompt options)
