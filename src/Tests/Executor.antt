-- ===== src/Tests/Executor.antt =====
-- The executor on a small store.
use baara_next.Base.{ℕ, ◌+◌, ◌≡◌, ◌<◌, ◌≤◌, refl, arith, List, [], ◌∷◌, none, some}
use baara_next.Core.Errors.{ok}
use baara_next.Core.Types.{TaskMessage, inbound, outbound, acknowledged, command_type, pause_type}
use baara_next.Core.Conversation.{command, pause, Checkpoint}
use baara_next.Store.Logs.{sent}
use baara_next.Store.Messages.{send_message, acknowledge_messages}
use baara_next.Executor.MessageBus.{
  Bus, Formats, send_command, acknowledge_commands, read_pending_commands, write_checkpoint,
  read_latest_checkpoint,
}
use baara_next.Executor.MessageBus.Mailbox.{Call, send, acknowledge}
use baara_next.Executor.MessageBus.Refinement.{
  Represents, nothing, waiting, posted, perform, read_pending_commands-outstanding,
}
use baara_next.Executor.CheckpointService.{
  CheckpointService, service_for, Moment, checkpoint_at, on_turn_complete, save_checkpoint,
}
use baara_next.Executor.CheckpointService.Freshness.{complete_turns-fresh}
use baara_next.Tests.Sample.{store}
use baara_next.Tests.Wire.{codec_of, codec_of-IsFaithful, command_wire, checkpoint_wire}

abbrev pub formats : Formats
formats = record {
  commands = codec_of command_wire;
  checkpoints = codec_of checkpoint_wire;
  entries = record { stringify = λ e. e.msg; parse = λ t. none };
}

abbrev pub bus_with : List TaskMessage → Bus
bus_with rows = record { store = record store { task_messages = rows }; files = [] }

-- A prompt and a pause for one execution, of which the prompt is acknowledged.
abbrev calls : List Call
calls = send 50 30 (command (65 ∷ [])) 8 ∷ send 51 30 pause 9 ∷ acknowledge (50 ∷ []) ∷ []

abbrev rows : List TaskMessage
rows =
    (record (sent 50 30 inbound command_type ((codec_of command_wire).stringify (command (65 ∷ [])))
      8) { status = acknowledged })
    ∷ sent 51 30 inbound pause_type ((codec_of command_wire).stringify pause) 9
    ∷ []

empty-Represents : Represents formats 0 (bus_with []) []
empty-Represents = record { ordered = tt; past = tt; shown = nothing }

read_pending_commands-outstanding_example :
    read_pending_commands formats 30 (bus_with rows) ≡ ok (record { id = 51; command = pause } ∷ [])
unfolding perform send_command acknowledge_commands send_message acknowledge_messages
read_pending_commands-outstanding_example =
    read_pending_commands-outstanding formats (codec_of-IsFaithful command_wire) calls 30 0
      (bus_with []) (bus_with rows) [] (omega arith, (omega arith, (omega arith, tt)))
      empty-Represents refl

abbrev moment : (id now : ℕ) → Moment
moment id now = record {
  id = id;
  message_id = id + 1;
  conversation_history = [];
  pending_tool_calls = [];
  timestamp = now;
  now = now;
}

-- Three turns under an interval of two.
abbrev moments : List Moment
moments = moment 60 8 ∷ moment 62 9 ∷ moment 64 9 ∷ []

abbrev every_second : CheckpointService
every_second = service_for 30 (some 2)

abbrev saved : Bus
saved = bus_with (
    sent 63 30 outbound 5
      ((codec_of checkpoint_wire).stringify (checkpoint_at every_second 2 (moment 62 9))) 9
    ∷ [])

complete_turns-fresh_example :
    (c : Checkpoint) × (read_latest_checkpoint formats 30 saved ≡ ok (some c))
    × (c.turn_count ≤ 3)
    × (3 < c.turn_count + 2)
unfolding on_turn_complete save_checkpoint write_checkpoint send_message
complete_turns-fresh_example =
    complete_turns-fresh formats (codec_of-IsFaithful checkpoint_wire) every_second (omega arith)
      moments 0 (bus_with []) saved (omega arith, (omega arith, (omega arith, tt))) tt (omega arith)
      refl

abbrev pub waiting_row : TaskMessage
waiting_row =
    sent 50 30 inbound command_type ((codec_of command_wire).stringify (command (65 ∷ []))) 8

pub waiting-Represents :
    Represents formats 8 (bus_with (waiting_row ∷ [])) (posted waiting_row (command (65 ∷ [])) ∷ [])
waiting-Represents = record {
  ordered = (tt, tt);
  past = (omega arith, tt);
  shown = waiting waiting_row (command (65 ∷ [])) refl refl nothing;
}
