-- ===== src/Core/Events.antt =====
-- The event catalogue of packages/core/src/events.ts.
use baara_next.Base.{ℕ, Bool, Option, List}
use baara_next.Core.Status.{ExecutionStatus}
use baara_next.Core.Types.{Key, Text, HealthStatus}

-- The variants of the union, with the fields that each adds to `BaseEvent`.
pub data EventType : Type 0 where
  execution_created : (task_id queue_name : Key) (attempt : ℕ) → EventType
  execution_queued : (queue_name : Key) → EventType
  execution_assigned : (agent_id : Key) → EventType
  execution_started : EventType
  turn_started : (turn_number : ℕ) → EventType
  turn_completed : (turn_number : ℕ) (output : Option Text) → EventType
  tool_invoked : (tool_name : Key) (input : Text) → EventType
  tool_completed : (tool_name : Key) (success : Bool) (output : Text) (duration_ms : ℕ) → EventType
  checkpoint_created : (checkpoint_id : Key) → EventType
  heartbeat_received : (turn_count : ℕ) (health_status : HealthStatus) → EventType
  input_requested :
      (input_request_id : Key) (prompt : Text) (options : Option (List Text)) → EventType
  input_provided : (input_request_id : Key) (response : Text) → EventType
  input_timed_out : (input_request_id : Key) → EventType
  execution_completed :
      (output : Option Text) (input_tokens output_tokens : Option ℕ) (duration_ms : ℕ) → EventType
  execution_failed : (error : Text) (duration_ms : ℕ) → EventType
  execution_timed_out : (duration_ms : ℕ) → EventType
  execution_cancelled : (reason : Option Text) → EventType
  retry_scheduled : (next_attempt delay_ms : ℕ) → EventType
  retry_started : (attempt : ℕ) → EventType
  dead_lettered : (previous_status : ExecutionStatus) (total_attempts : ℕ) → EventType

pub record Event : Type 0 where
  pub id : Key
  pub execution_id : Key
  pub event_seq : ℕ
  pub timestamp : ℕ
  pub type : EventType
