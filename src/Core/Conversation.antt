-- ===== src/Core/Conversation.antt =====
-- The checkpoints, conversation messages, sandbox events and commands of packages/core/src/types.ts.
use baara_next.Base.{ℕ, Bool, Option, List}
use baara_next.Core.Types.{Key, Text, command_type, hitl_response_type, pause_type, resume_type}

pub data Speaker : Type 0 where
  user assistant : Speaker

-- A block is the JSON text of its fields.
pub data Content : Type 0 where
  text : Text → Content
  blocks : List Text → Content

pub record ConversationMessage : Type 0 where
  pub role : Speaker
  pub content : Content

-- `agent_state` is the JSON text of the opaque session metadata.
pub record Checkpoint : Type 0 where
  pub id : Key
  pub execution_id : Key
  pub turn_count : ℕ
  pub conversation_history : List ConversationMessage
  pub pending_tool_calls : List Text
  pub agent_state : Text
  pub timestamp : ℕ

pub data Level : Type 0 where
  info warn error debug : Level

-- The inputs and outputs of tools are their JSON text.
pub data SandboxEvent : Type 0 where
  log : Level → (message : Text) → (timestamp : ℕ) → SandboxEvent
  text_delta : Text → SandboxEvent
  tool_use : (name : Text) → (input : Text) → SandboxEvent
  tool_result : (name : Text) → (output : Text) → (is_error : Bool) → SandboxEvent
  hitl_request : (prompt : Text) → Option (List Text) → SandboxEvent
  checkpoint : Checkpoint → SandboxEvent
  turn_complete : (turn_count : ℕ) → (input_tokens : ℕ) → (output_tokens : ℕ) → SandboxEvent

pub data InboundCommand : Type 0 where
  command : (prompt : Text) → InboundCommand
  hitl_response : (response : Text) → InboundCommand
  pause resume : InboundCommand

-- `command.type`
abbrev pub type_of : InboundCommand → Key
type_of (command prompt) = command_type
type_of (hitl_response response) = hitl_response_type
type_of pause = pause_type
type_of resume = resume_type
