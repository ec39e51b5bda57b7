-- ===== src/Core/Types.antt =====
-- The entities of packages/core/src/types.ts. Identifiers and names are only compared, so a string
-- of that kind is a number that stands for it (`Key`); a string whose characters matter is the
-- list of its UTF-16 code units (`Text`). Times are milliseconds, `created_at` is in seconds, as
-- `datetime('now')` is. A column that may hold NULL is an `Option`.
use baara_next.Base.{ℕ, Bool, Option, none, List}
use baara_next.Core.Status.{ExecutionStatus}

abbrev pub Key : Type 0
Key = ℕ

abbrev pub Text : Type 0
Text = List ℕ

-- The strings that the code spells out.
abbrev pub main_thread_id : Key
main_thread_id = 0

abbrev pub transfer_queue : Key
transfer_queue = 1

abbrev pub timer_queue : Key
timer_queue = 2

abbrev pub visibility_queue : Key
visibility_queue = 3

abbrev pub dlq_queue : Key
dlq_queue = 4

abbrev pub checkpoint_type : Key
checkpoint_type = 5

abbrev pub log_type : Key
log_type = 6

abbrev pub command_type : Key
command_type = 7

abbrev pub hitl_response_type : Key
hitl_response_type = 8

abbrev pub pause_type : Key
pause_type = 9

abbrev pub resume_type : Key
resume_type = 10

-- The agent of `runDirect`.
abbrev pub direct_agent : Key
direct_agent = 11

pub data HealthStatus : Type 0 where
  healthy slow unresponsive : HealthStatus

pub data ExecutionType : Type 0 where
  cloud_code wasm wasm_edge shell : ExecutionType
  -- any other string, which a JSON body may hold
  unknown_type : Key → ExecutionType

pub data SandboxType : Type 0 where
  native wasm docker : SandboxType

-- The arguments stand in the order of the source's fields.
pub data SandboxConfig : Type 0 where
  native : SandboxConfig
  wasm : Option Bool → Option ℕ → Option ℕ → Option (List ℕ) → SandboxConfig
  docker : Option Key → Option Bool → Option (List ℕ) → Option (List Key) → SandboxConfig

pub data PermissionMode : Type 0 where
  default accept_edits bypass_permissions : PermissionMode
  unknown_mode : Key → PermissionMode

pub data ExecutionMode : Type 0 where
  direct queued : ExecutionMode

-- `budget_usd` is in millionths of a dollar.
pub record AgentConfig : Type 0 where
  pub model : Option Key
  pub allowed_tools : Option (List Key)
  pub max_turns : Option ℕ
  pub budget_usd : Option ℕ
  pub permission_mode : Option PermissionMode
  pub system_prompt : Option Text
  -- the JSON text of the server map
  pub mcp_servers : Option Text

pub record Task : Type 0 where
  pub id : Key
  pub name : Key
  pub description : Text
  pub prompt : Text
  pub cron_expression : Option Text
  pub timeout_ms : ℕ
  pub execution_type : ExecutionType
  pub sandbox_type : SandboxType
  pub sandbox_config : SandboxConfig
  pub agent_config : Option AgentConfig
  pub priority : ℕ
  pub target_queue : Key
  pub max_retries : ℕ
  pub execution_mode : ExecutionMode
  pub enabled : Bool
  pub project_id : Option Key
  pub target_thread_id : Option Key
  pub created_at : ℕ
  pub updated_at : ℕ

-- `CreateTaskInput` and `UpdateTaskInput`: the outer `Option` is `undefined`, the inner is `null`.
pub record TaskInput : Type 0 where
  pub name : Option Key
  pub description : Option Text
  pub prompt : Option Text
  pub cron_expression : Option (Option Text)
  pub timeout_ms : Option ℕ
  pub execution_type : Option ExecutionType
  pub sandbox_type : Option SandboxType
  pub sandbox_config : Option SandboxConfig
  pub agent_config : Option (Option AgentConfig)
  pub priority : Option ℕ
  pub target_queue : Option Key
  pub max_retries : Option ℕ
  pub execution_mode : Option ExecutionMode
  pub enabled : Option Bool
  pub project_id : Option (Option Key)
  pub target_thread_id : Option (Option Key)

pub record Execution : Type 0 where
  pub id : Key
  pub task_id : Key
  pub queue_name : Key
  pub priority : ℕ
  pub status : ExecutionStatus
  pub attempt : ℕ
  pub scheduled_at : ℕ
  pub started_at : Option ℕ
  pub completed_at : Option ℕ
  pub duration_ms : Option ℕ
  pub output : Option Text
  pub error : Option Text
  pub input_tokens : Option ℕ
  pub output_tokens : Option ℕ
  pub health_status : HealthStatus
  pub turn_count : ℕ
  pub checkpoint_data : Option Text
  pub thread_id : Option Key
  pub created_at : ℕ

-- `Partial<Execution>` as the store reads it: the outer `Option` is `undefined`.
pub record ExecutionUpdates : Type 0 where
  pub started_at : Option (Option ℕ)
  pub completed_at : Option (Option ℕ)
  pub duration_ms : Option (Option ℕ)
  pub output : Option (Option Text)
  pub error : Option (Option Text)
  pub input_tokens : Option (Option ℕ)
  pub output_tokens : Option (Option ℕ)
  pub health_status : Option HealthStatus
  pub turn_count : Option ℕ
  pub checkpoint_data : Option (Option Text)

abbrev pub no_updates : ExecutionUpdates
no_updates = record {
  started_at = none;
  completed_at = none;
  duration_ms = none;
  output = none;
  error = none;
  input_tokens = none;
  output_tokens = none;
  health_status = none;
  turn_count = none;
  checkpoint_data = none;
}

pub data InputStatus : Type 0 where
  pending responded timed_out : InputStatus

pub record InputRequest : Type 0 where
  pub id : Key
  pub execution_id : Key
  pub prompt : Text
  pub options : Option (List Text)
  pub context : Option Text
  pub response : Option Text
  pub status : InputStatus
  pub timeout_ms : ℕ
  pub created_at : ℕ
  pub responded_at : Option ℕ

pub record Template : Type 0 where
  pub id : Key
  pub name : Key
  pub description : Text
  pub agent_config : AgentConfig
  pub created_at : ℕ
  pub updated_at : ℕ

pub record Project : Type 0 where
  pub id : Key
  pub name : Key
  pub description : Text
  pub instructions : Text
  pub working_directory : Text
  pub created_at : ℕ
  pub updated_at : ℕ

pub record ProjectInput : Type 0 where
  pub name : Option Key
  pub description : Option Text
  pub instructions : Option Text
  pub working_directory : Option Text

pub record Thread : Type 0 where
  pub id : Key
  pub title : Text
  pub created_at : ℕ
  pub updated_at : ℕ

pub data Role : Type 0 where
  user agent : Role

pub record ThreadMessage : Type 0 where
  pub id : Key
  pub thread_id : Key
  pub role : Role
  pub content : Text
  pub tool_calls : Text
  pub created_at : ℕ

pub record Queue : Type 0 where
  pub name : Key
  pub max_concurrency : ℕ
  pub created_at : ℕ

pub data Direction : Type 0 where
  inbound outbound : Direction

pub data MessageStatus : Type 0 where
  pending delivered acknowledged : MessageStatus

-- `message_type` is a free string in the source.
pub record TaskMessage : Type 0 where
  pub id : Key
  pub execution_id : Key
  pub direction : Direction
  pub message_type : Key
  pub payload : Text
  pub status : MessageStatus
  pub created_at : ℕ

-- What a runtime reports of a finished run (packages/core/src/interfaces/executor.ts).
pub data ResultStatus : Type 0 where
  completed failed timed_out cancelled : ResultStatus

pub record ExecuteResult : Type 0 where
  pub status : ResultStatus
  pub output : Option Text
  pub error : Option Text
  pub duration_ms : ℕ
  pub input_tokens : Option ℕ
  pub output_tokens : Option ℕ
