-- ===== src/Orchestrator/EventHandler.antt =====
-- packages/orchestrator/src/event-handler.ts
use baara_next.Base.{ℕ, ◌+◌, List, Option, some, get_or, codes}
use baara_next.Core.Status.{ExecutionStatus}
use baara_next.Core.Types.{Key, Text, ExecuteResult, ResultStatus}
use baara_next.Core.Events.{
  Event, EventType, execution_created, execution_queued, execution_assigned, execution_started,
  execution_completed, execution_failed, execution_timed_out, execution_cancelled, retry_scheduled,
  retry_started, dead_lettered, input_requested, input_provided,
}
use baara_next.Store.{Store}
use baara_next.Store.Events.{append_event, get_max_event_seq}
use baara_next.Core.Errors.{Result}
use baara_next.Orchestrator.World.{Platform, Action, gets, ◌>>=◌, on_store, random_uuid}

-- `nextSeq`
unfoldable pub next_seq : Key → Store → ℕ
unfolding get_max_event_seq
next_seq execution_id s = get_max_event_seq execution_id s + 1

-- `makeBase`, with the fields that one type of event adds.
abbrev pub make_event : (id execution_id : Key) (now : ℕ) → EventType → Store → Event
make_event id execution_id now type s = record {
  id = id;
  execution_id = execution_id;
  event_seq = next_seq execution_id s;
  timestamp = now;
  type = type;
}

-- The body that the emitters share: `store.appendEvent({ ...makeBase(store, executionId), … })`.
unfoldable pub append_next : (id execution_id : Key) (now : ℕ) → EventType → Store → Result Store
unfolding append_event next_seq
append_next id execution_id now type s = append_event (make_event id execution_id now type s) s

unfoldable pub unknown_error : Text
unknown_error = codes "unknown error"

unfoldable pub agent_reported_cancelled : Text
agent_reported_cancelled = codes "agent reported cancelled"

-- The event that `emitTerminalFromResult` picks.
unfoldable pub terminal_event : ExecuteResult → EventType
terminal_event r = elim r.status [
  | ResultStatus.completed ↦
      execution_completed r.output r.input_tokens r.output_tokens r.duration_ms
  | ResultStatus.failed ↦ execution_failed (get_or r.error unknown_error) r.duration_ms
  | ResultStatus.timed_out ↦ execution_timed_out r.duration_ms
  | ResultStatus.cancelled ↦ execution_cancelled (some agent_reported_cancelled)
]

module _ (p : Platform) where
  unfoldable pub emit : (execution_id : Key) → EventType → Action (Unit {0})
  emit execution_id type = do
    id ← random_uuid p
    now ← gets (λ w. w.now)
    on_store (append_next id execution_id now type)

  abbrev pub emit_execution_created :
      (id task_id queue_name : Key) (attempt : ℕ) → Action (Unit {0})
  emit_execution_created id task_id queue_name attempt =
      emit id (execution_created task_id queue_name attempt)

  abbrev pub emit_execution_queued : (id queue_name : Key) → Action (Unit {0})
  emit_execution_queued id queue_name = emit id (execution_queued queue_name)

  abbrev pub emit_execution_assigned : (id agent_id : Key) → Action (Unit {0})
  emit_execution_assigned id agent_id = emit id (execution_assigned agent_id)

  abbrev pub emit_execution_started : (id : Key) → Action (Unit {0})
  emit_execution_started id = emit id execution_started

  abbrev pub emit_execution_cancelled : (id : Key) → Option Text → Action (Unit {0})
  emit_execution_cancelled id reason = emit id (execution_cancelled reason)

  abbrev pub emit_retry_scheduled : (id : Key) (next_attempt delay_ms : ℕ) → Action (Unit {0})
  emit_retry_scheduled id next_attempt delay_ms = emit id (retry_scheduled next_attempt delay_ms)

  abbrev pub emit_retry_started : (id : Key) (attempt : ℕ) → Action (Unit {0})
  emit_retry_started id attempt = emit id (retry_started attempt)

  abbrev pub emit_dead_lettered : (id : Key) → ExecutionStatus → (attempts : ℕ) → Action (Unit {0})
  emit_dead_lettered id previous attempts = emit id (dead_lettered previous attempts)

  abbrev pub emit_input_requested :
      (id request_id : Key) (prompt : Text) → Option (List Text) → Action (Unit {0})
  emit_input_requested id request_id prompt options =
      emit id (input_requested request_id prompt options)

  abbrev pub emit_input_provided : (id request_id : Key) (response : Text) → Action (Unit {0})
  emit_input_provided id request_id response = emit id (input_provided request_id response)

  abbrev pub emit_terminal_from_result : (id : Key) → ExecuteResult → Action (Unit {0})
  emit_terminal_from_result id r = emit id (terminal_event r)
