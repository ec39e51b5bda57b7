-- ===== src/Executor/Recovery.antt =====
-- packages/executor/src/recovery.ts: the prompt and the parameters of a resumed run.
use baara_next.Base.{ℕ, List, [], ◌∷◌, ◌++◌, Option, none, some, get_or, take, codes, join, decimal}
use mathlib.Core.List.{reverse}
use baara_next.Core.Types.{Key, Text, AgentConfig}
use baara_next.Core.Conversation.{Checkpoint, ConversationMessage, user, assistant, Content, blocks}

pub record SandboxExecuteParams : Type 0 where
  pub execution_id : Key
  pub prompt : Text
  pub tools : List Key
  pub agent_config : AgentConfig
  pub checkpoint : Option Checkpoint
  pub environment : Option (List Text)
  pub timeout : ℕ

abbrev pub find_user : List ConversationMessage → Option ConversationMessage
find_user [] = none
find_user (m ∷ ms) = elim m.role [ user ↦ some m | assistant ↦ find_user ms ]

-- The last instruction of the user, if it is plain text.
abbrev pub last_context : List ConversationMessage → Text
last_context history = elim (find_user (reverse history)) [
  | none ↦ []
  | some m ↦ elim m.content [
    | Content.text t ↦ codes "The last user instruction was: \"" ++ take 200 t ++ codes "\""
    | blocks bs ↦ []
  ]
]

abbrev pub pending_line : List Text → Text
pending_line [] = codes "No tool calls were in flight at checkpoint time."
pending_line (t ∷ ts) =
    codes "In-flight tool calls at checkpoint time: " ++ join (codes ", ") (t ∷ ts) ++ codes "."

-- `buildRecoveryPrompt`
unfoldable pub build_recovery_prompt : Option Checkpoint → Text
build_recovery_prompt none = []
build_recovery_prompt (some c) = join (codes "\n") (
    codes "RECOVERY CONTEXT: This is a resumed execution. You were previously working on this"
    ∷ (codes "task and completed "
        ++ decimal c.turn_count
        ++ codes " turns before the session was interrupted.")
    ∷ []
    ∷ pending_line c.pending_tool_calls
    ∷ last_context c.conversation_history
    ∷ []
    ∷ codes "Please check the current state and continue from where you left off. Do not repeat"
    ∷ codes "work that has already been completed — verify the current state first, then proceed."
    ∷ codes "---"
    ∷ [])

-- `existing ? prefix + "\n\n" + existing : prefix`
abbrev pub prepend : Text → Text → Text
prepend prefix [] = prefix
prepend prefix (c ∷ cs) = prefix ++ (codes "\n\n" ++ c ∷ cs)

-- `prepareRecoveryParams`
unfoldable pub prepare_recovery_params : Checkpoint → SandboxExecuteParams → SandboxExecuteParams
prepare_recovery_params c base =
    let existing = get_or base.agent_config.system_prompt [] in
    record base {
      checkpoint = some c;
      agent_config = record base.agent_config {
        system_prompt = some (prepend (build_recovery_prompt (some c)) existing);
      };
    }
