-- ===== src/Executor/MessageBus.antt =====
-- `MessageBus` of packages/executor/src/message-bus.ts: the commands to a running execution, its
-- checkpoints and its log, over the task messages of the store and the log files.
use baara_next.Base.{ℕ, List, [], ◌∷◌, ◌++◌, Option, none, some, ◌==◌, if◌then◌else◌}
use baara_next.Core.Errors.{Result, ok, err, or_err, other, ◌>>=◌}
use baara_next.Core.Types.{
  Key, Text, TaskMessage, inbound, outbound, MessageStatus, checkpoint_type, log_type,
}
use baara_next.Core.Json.{Codec}
use baara_next.Core.Conversation.{InboundCommand, type_of, Checkpoint, Level}
use baara_next.Store.{Store}
use baara_next.Store.Messages.{
  send_message, read_messages, acknowledge_messages, read_latest_message,
}
pub mod Mailbox
pub mod Refinement

pub record PendingCommand : Type 0 where
  pub id : Key
  pub command : InboundCommand

pub record LogEntry : Type 0 where
  pub ts : ℕ
  pub level : Level
  pub msg : Text
  pub execution_id : Key

-- How the bus writes its payloads.
pub record Formats : Type 0 where
  pub commands : Codec InboundCommand
  pub checkpoints : Codec Checkpoint
  pub entries : Codec LogEntry

-- `{logsDir}/{executionId}.jsonl`
pub record LogFile : Type 0 where
  pub execution_id : Key
  pub content : Text

pub record Bus : Type 0 where
  pub store : Store
  pub files : List LogFile

-- `appendFileSync`
abbrev pub append_file : Key → Text → List LogFile → List LogFile
append_file k text [] = (record { execution_id = k; content = text }) ∷ []
append_file k text (f ∷ fs) =
    if f.execution_id == k
    then (record f { content = f.content ++ text }) ∷ fs
    else f ∷ append_file k text fs

-- The date of a row is in seconds, as `datetime('now')` is.
module _ (formats : Formats) where
  -- `sendCommand`
  unfoldable pub send_command :
      (id execution_id : Key) → InboundCommand → (now : ℕ) → Bus → Result Bus
  send_command id execution_id c now bus = do
    let payload = formats.commands.stringify c
    store ← send_message id execution_id inbound (type_of c) payload now bus.store
    ok (record bus { store = store })

  abbrev pub parse_commands : List TaskMessage → Result (List PendingCommand)
  parse_commands [] = ok []
  parse_commands (row ∷ rows) = do
    c ← or_err (formats.commands.parse row.payload) other
    rest ← parse_commands rows
    ok ((record { id = row.id; command = c }) ∷ rest)

  -- `readPendingCommands`
  unfoldable pub read_pending_commands : Key → Bus → Result (List PendingCommand)
  read_pending_commands execution_id bus =
      parse_commands (read_messages execution_id inbound (some MessageStatus.pending) bus.store)

  -- `writeCheckpoint`
  unfoldable pub write_checkpoint :
      (id execution_id : Key) → Checkpoint → (now : ℕ) → Bus → Result Bus
  write_checkpoint id execution_id c now bus = do
    let payload = formats.checkpoints.stringify c
    store ← send_message id execution_id outbound checkpoint_type payload now bus.store
    ok (record bus { store = store })

  -- `readLatestCheckpoint`
  unfoldable pub read_latest_checkpoint : Key → Bus → Result (Option Checkpoint)
  read_latest_checkpoint execution_id bus =
      elim (read_latest_message execution_id outbound checkpoint_type bus.store) [
        | none ↦ ok none
        | some row ↦ do c ← or_err (formats.checkpoints.parse row.payload) other; ok (some c)
      ]

  -- `appendLog`: first the row, then the line of the file; `ts` is the time in milliseconds.
  unfoldable pub append_log :
      (id execution_id : Key) → Level → (message : Text) → (ts now : ℕ) → Bus → Result Bus
  append_log id execution_id level message ts now bus = do
    let entry : LogEntry = record {
      ts = ts;
      level = level;
      msg = message;
      execution_id = execution_id;
    }
    let line = formats.entries.stringify entry
    store ← send_message id execution_id outbound log_type line now bus.store
    let files = append_file execution_id (line ++ 10 ∷ []) bus.files
    ok (record bus { store = store; files = files })

-- `acknowledgeCommands`
unfoldable pub acknowledge_commands : List Key → Bus → Bus
acknowledge_commands ids bus = record bus { store = acknowledge_messages ids bus.store }
