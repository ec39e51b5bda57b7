-- ===== src/Executor/CheckpointService.antt =====
-- `CheckpointService` of packages/executor/src/checkpoint-service.ts: the periodic checkpoints of a
-- run, and the loop of the native sandbox that counts its turns.
use baara_next.Base.{
  ℕ, zero, suc, List, [], ◌∷◌, Bool, ◌&&◌, Option, ltb, ◌==◌, ◌%◌, if◌then◌else◌, get_or, codes,
}
use baara_next.Core.Errors.{Result, ok, ◌>>=◌}
use baara_next.Core.Types.{Key, Text}
use baara_next.Core.Conversation.{Checkpoint, ConversationMessage}
use baara_next.Executor.MessageBus.{Bus, Formats, write_checkpoint}
pub mod Freshness

pub record CheckpointService : Type 0 where
  pub execution_id : Key
  pub interval_turns : ℕ

-- The constructor; the interval may be left out.
abbrev pub service_for : Key → Option ℕ → CheckpointService
service_for execution_id interval_turns = record {
  execution_id = execution_id;
  interval_turns = get_or interval_turns 5;
}

-- What a call finds: the ids that it draws, the answers of the two callbacks, and the clock in
-- milliseconds and in seconds.
pub record Moment : Type 0 where
  pub id : Key
  pub message_id : Key
  pub conversation_history : List ConversationMessage
  pub pending_tool_calls : List Text
  pub timestamp : ℕ
  pub now : ℕ

abbrev pub checkpoint_at : CheckpointService → ℕ → Moment → Checkpoint
checkpoint_at service turn_count m = record {
  id = m.id;
  execution_id = service.execution_id;
  turn_count = turn_count;
  conversation_history = m.conversation_history;
  pending_tool_calls = m.pending_tool_calls;
  agent_state = codes "{}";
  timestamp = m.timestamp;
}

-- A remainder modulo 0 is `NaN`, which is not 0.
abbrev pub is_due : CheckpointService → ℕ → Bool
is_due service turn_count =
    ltb 0 turn_count && (ltb 0 service.interval_turns && turn_count % service.interval_turns == 0)

module _ (formats : Formats) (service : CheckpointService) where
  -- `checkpoint`
  unfoldable pub save_checkpoint : ℕ → Moment → Bus → Result Bus
  save_checkpoint turn_count m bus =
      write_checkpoint formats m.message_id service.execution_id
        (checkpoint_at service turn_count m) m.now bus

  -- `onTurnComplete`
  unfoldable pub on_turn_complete : ℕ → Moment → Bus → Result Bus
  on_turn_complete turn_count m bus =
      if is_due service turn_count then save_checkpoint turn_count m bus else ok bus

  -- The turns after the first `n` ones, each counted and then reported.
  abbrev pub complete_turns : (n : ℕ) → List Moment → Bus → Result Bus
  complete_turns n [] bus = ok bus
  complete_turns n (m ∷ ms) bus = do
    next ← on_turn_complete (suc n) m bus
    complete_turns (suc n) ms next
