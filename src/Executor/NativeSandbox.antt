-- ===== src/Executor/NativeSandbox.antt =====
-- `NativeSandboxInstance` of packages/executor/src/sandboxes/native.ts: a run of the agent SDK in the
-- host process, with events, checkpoints and commands.
use baara_next.Base.{
  ℕ, suc, ◌-◌, List, [], ◌∷◌, ◌++◌, Bool, true, false, Option, none, some, if◌then◌else◌, get_or,
  or_else, take, map, codes, decimal,
}
use baara_next.Core.Errors.{Result, ok, err, Error, ◌>>=◌}
use baara_next.Core.Types.{Key, Text, AgentConfig, PermissionMode, ExecuteResult}
use baara_next.Core.Conversation.{
  SandboxEvent, tool_use, tool_result, turn_complete, text_delta, Level, info, error, Checkpoint,
  ConversationMessage, assistant, Content, InboundCommand, hitl_response, pause, resume, type_of,
}
use baara_next.Executor.EventStream.{EventStream, push_event, close_events}
use baara_next.Executor.MessageBus.{
  Bus, Formats, PendingCommand, send_command, read_pending_commands, acknowledge_commands,
}
use baara_next.Executor.CheckpointService.{
  CheckpointService, service_for, Moment, save_checkpoint, on_turn_complete,
}
use baara_next.Executor.Recovery.{SandboxExecuteParams, build_recovery_prompt, prepend}
use baara_next.Executor.Sdk.{
  SdkMessage, MessageKind, Tick, Arrival, Ending, exhausted, rejected, SdkOptions, default_model,
  add_tokens, replace_tokens,
}
use baara_next.Executor.LogWriter.{asked}
use baara_next.Executor.CloudCode.{Totals, no_totals, failed_after, completed_with}
pub mod Commands
pub mod Polling

-- The instance and the variables of `execute`; without a bus nothing is durable.
pub record Session : Type 0 where
  pub stream : EventStream SandboxEvent
  pub conversation_history : List ConversationMessage
  pub pending_prompts : List Text
  pub paused : Bool
  pub totals : Totals
  pub turn_count : ℕ
  pub bus : Option Bus

-- The parts of the platform: the text of an id, of a command type and of an error.
pub record Host : Type 0 where
  pub formats : Formats
  pub key_text : Key → Text
  pub error_text : Error → Text

abbrev pub push : SandboxEvent → Session → Session
push event s = record s { stream = push_event event s.stream }

abbrev pub push_log : Level → Text → ℕ → Session → Session
push_log level message timestamp = push (SandboxEvent.log level message timestamp)

-- `{ ...this.agentConfig, ...params.agentConfig }`
abbrev pub merged_config : AgentConfig → AgentConfig → AgentConfig
merged_config own given = record {
  model = or_else given.model own.model;
  allowed_tools = or_else given.allowed_tools own.allowed_tools;
  max_turns = or_else given.max_turns own.max_turns;
  budget_usd = or_else given.budget_usd own.budget_usd;
  permission_mode = or_else given.permission_mode own.permission_mode;
  system_prompt = or_else given.system_prompt own.system_prompt;
  mcp_servers = or_else given.mcp_servers own.mcp_servers;
}

-- The system prompt of a run; an empty one is not passed on.
unfoldable pub session_prompt : Option Checkpoint → Option Text → Option Text
session_prompt checkpoint own = elim (build_recovery_prompt checkpoint) [
  | [] ↦ asked own
  | c ∷ cs ↦ some (prepend (c ∷ cs) (get_or own []))
]

abbrev pub no_blank : List ConversationMessage → Option (List ConversationMessage)
no_blank [] = none
no_blank (m ∷ ms) = some (m ∷ ms)

-- The options of `query`, from the merged configuration.
abbrev pub native_options : AgentConfig → Option Checkpoint → SdkOptions
native_options config checkpoint = record {
  allowed_tools = config.allowed_tools;
  permission_mode = get_or config.permission_mode PermissionMode.default;
  model = get_or config.model default_model;
  system_prompt = session_prompt checkpoint config.system_prompt;
  max_turns = config.max_turns;
  max_budget_usd = config.budget_usd;
  mcp_servers = config.mcp_servers;
  messages = elim checkpoint [ none ↦ none | some c ↦ no_blank c.conversation_history ];
  cwd = none;
}

-- The events of a message and its part of the history.
abbrev pub hear : MessageKind → ℕ → Session → Session
hear (MessageKind.text t) now s =
    let said : ConversationMessage = record { role = assistant; content = Content.text t } in
    let heard = push (text_delta t) s in
    record heard { conversation_history = heard.conversation_history ++ said ∷ [] }
hear (MessageKind.tool_use name input) now s =
    push_log info (codes "[tool] " ++ name ++ codes ": " ++ take 200 input) now
      (push (tool_use name input) s)
hear (MessageKind.tool_result name output is_error) now s =
    push (tool_result (get_or name (codes "unknown")) output (get_or is_error false)) s
hear MessageKind.turn_complete now s = s
hear MessageKind.other_kind now s = s

-- The end of the loop: the session, and the error that it throws.
pub data Loop : Type 0 where
  finished : Session → Loop
  threw : Session → Text → Loop

abbrev pub moment_of : Tick → Session → Moment
moment_of t s = record {
  id = t.id;
  message_id = t.message_id;
  conversation_history = s.conversation_history;
  pending_tool_calls = [];
  timestamp = t.timestamp;
  now = t.now;
}

-- What `execute` finds besides the messages: the signal when an error is caught_run, the timeout, the
-- duration, the clock at the start, and the ids and the clock at the end.
pub record Run : Type 0 where
  pub ending : Ending
  pub aborted : Bool
  pub timeout : ℕ
  pub duration : ℕ
  pub started : ℕ
  pub last : Tick

abbrev pub count_turn : Session → Session
count_turn s =
    let n = suc s.turn_count in
    push (turn_complete n s.totals.input_tokens s.totals.output_tokens)
      (record s { turn_count = n })

module _ (host : Host) (execution_id : Key) where
  abbrev service : CheckpointService
  service = service_for execution_id (some 5)

  -- A write of the checkpoint service; the bus that does nothing stands in for a missing one.
  abbrev pub write_with : (Bus → Result Bus) → Session → Loop
  write_with write s = elim s.bus [
    | none ↦ finished s
    | some bus ↦ elim (write bus) [
      | ok after ↦ finished (record s { bus = some after })
      | err e ↦ threw s (host.error_text e)
    ]
  ]

  abbrev pub complete_turn : MessageKind → Tick → Session → Loop
  complete_turn MessageKind.turn_complete t s =
      let counted = count_turn s in
      write_with (on_turn_complete host.formats service counted.turn_count (moment_of t counted))
        counted
  complete_turn _ t s = finished s

  -- The result and the tokens of a turn.
  abbrev pub add_turn : SdkMessage → Session → Session
  add_turn m s = record s {
    totals = record {
      output = get_or m.result s.totals.output;
      input_tokens = add_tokens m.turn_usage (λ u. u.input_tokens) s.totals.input_tokens;
      output_tokens = add_tokens m.turn_usage (λ u. u.output_tokens) s.totals.output_tokens;
    };
  }

  abbrev pub override_usage : SdkMessage → Session → Session
  override_usage m s = record s {
    totals = record s.totals {
      input_tokens = replace_tokens m.usage (λ u. u.input_tokens) s.totals.input_tokens;
      output_tokens = replace_tokens m.usage (λ u. u.output_tokens) s.totals.output_tokens;
    };
  }

  -- The body of the loop.
  unfoldable pub take_message : SdkMessage → Tick → Session → Loop
  take_message m t s = elim (complete_turn m.kind t (add_turn m (hear m.kind t.timestamp s))) [
    | finished next ↦ finished (override_usage m next)
    | threw next message ↦ threw next message
  ]

  abbrev pub native_loop : List Arrival → Ending → Session → Loop
  native_loop [] exhausted s = finished s
  native_loop [] (rejected message) s = threw s message
  native_loop (a ∷ arrivals) ending s =
      if a.aborted then finished s else elim (take_message a.message a.tick s) [
        | finished next ↦ native_loop arrivals ending next
        | threw next message ↦ threw next message
      ]

  abbrev pub begin_run : Option Checkpoint → ℕ → Session → Session
  begin_run checkpoint started s =
      let resumed : Session = elim checkpoint [
        | none ↦ s
        | some c ↦ record s { conversation_history = c.conversation_history }
      ] in
      let from : Text = elim checkpoint [
        | none ↦ []
        | some c ↦ codes " (recovery from turn " ++ decimal c.turn_count ++ codes ")"
      ] in
      push_log info (codes "Starting execution " ++ host.key_text execution_id ++ from) started
        resumed

  -- The `catch` block.
  abbrev pub caught_run : Run → Text → Session → ExecuteResult × Session
  caught_run run message s =
      let closed = record s { stream = close_events s.stream } in
      let result = failed_after run.aborted run.timeout message run.duration in
      let line = codes "Execution " ++ host.key_text execution_id ++ codes " failed: " ++ message in
      (result, if run.aborted then closed else push_log error line run.last.timestamp closed)

  -- After the loop: the last checkpoint, the last log, the end of the events.
  abbrev pub conclude : Run → Loop → ExecuteResult × Session
  conclude run (threw s message) = caught_run run message s
  conclude run (finished s) =
      elim (write_with (save_checkpoint host.formats service s.turn_count (moment_of run.last s))
        s) [
          | threw next message ↦ caught_run run message next
          | finished next ↦
              let line =
                codes "Execution "
                ++ host.key_text execution_id
                ++ codes " completed in "
                ++ decimal run.duration
                ++ codes "ms ("
                ++ decimal next.turn_count
                ++ codes " turns)" in
              let logged = push_log info line run.last.timestamp next in
              (
                completed_with logged.totals run.duration,
                record logged { stream = close_events logged.stream },
              )
        ]

  -- `execute`
  unfoldable pub execute_native :
      List Arrival → Run → Option Checkpoint → Session → ExecuteResult × Session
  execute_native arrivals run checkpoint s =
      let begun = record s { totals = no_totals; turn_count = 0 } in
      conclude run (native_loop arrivals run.ending (begin_run checkpoint run.started begun))
