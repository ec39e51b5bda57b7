-- ===== src/Executor/Sdk.antt =====
-- What the runtimes of packages/executor see of the agent SDK: the messages of `query`, in the fields
-- that they read, and how the iteration ends.
use baara_next.Base.{ℕ, List, Bool, Option, none, some, ◌+◌, get_or}
use baara_next.Core.Types.{Key, Text, PermissionMode}
use baara_next.Core.Conversation.{ConversationMessage}

pub record Usage : Type 0 where
  pub input_tokens : Option ℕ
  pub output_tokens : Option ℕ

-- `type`, where it is one that the code tells apart; an input or output is its JSON text. The SDK sends
-- every `tool_use` with an input.
pub data MessageKind : Type 0 where
  text : Text → MessageKind
  tool_use : (name : Text) → (input : Text) → MessageKind
  tool_result : (name : Option Text) → (output : Text) → (is_error : Option Bool) → MessageKind
  turn_complete other_kind : MessageKind

-- `turn_usage` is the field `usage` of the field `message`.
pub record SdkMessage : Type 0 where
  pub kind : MessageKind
  pub result : Option Text
  pub turn_usage : Option Usage
  pub usage : Option Usage

-- The ids that are drawn while the message is handled, and the clock.
pub record Tick : Type 0 where
  pub id : Key
  pub message_id : Key
  pub timestamp : ℕ
  pub now : ℕ

-- A message, and whether the run is aborted before it is handled, while it is paused included; a pause
-- that never ends is not represented.
pub record Arrival : Type 0 where
  pub message : SdkMessage
  pub aborted : Bool
  pub tick : Tick

-- The iteration ends, or throws an error with a message.
pub data Ending : Type 0 where
  exhausted : Ending
  rejected : Text → Ending

-- The options of `query`; `messages` is the history of a checkpoint.
pub record SdkOptions : Type 0 where
  pub allowed_tools : Option (List Key)
  pub permission_mode : PermissionMode
  pub model : Key
  pub system_prompt : Option Text
  pub max_turns : Option ℕ
  pub max_budget_usd : Option ℕ
  pub mcp_servers : Option Text
  pub messages : Option (List ConversationMessage)
  pub cwd : Option Text

abbrev pub default_model : Key
default_model = 18

-- The tokens of a turn are added up, a missing number counts as 0.
abbrev pub add_tokens : Option Usage → (Usage → Option ℕ) → ℕ → ℕ
add_tokens none field total = total
add_tokens (some u) field total = total + get_or (field u) 0

-- The numbers of a result replace the totals.
abbrev pub replace_tokens : Option Usage → (Usage → Option ℕ) → ℕ → ℕ
replace_tokens none field total = total
replace_tokens (some u) field total = get_or (field u) total
