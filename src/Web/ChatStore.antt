-- ===== src/Web/ChatStore.antt =====
-- The chat store of packages/web/src/stores/chat-store.ts. The events of the server, how its stream
-- ends and its history are arguments; costs are in millionths of a dollar.
use baara_next.Base.{
  ℕ, suc, ◌+◌, List, [], ◌∷◌, ◌++◌, Bool, true, false, not, ◌&&◌, Option, none, some, if◌then◌else◌,
  ◌==◌, get_or, is_some, map, update, codes, exists_in,
}
use baara_next.Core.Types.{Key, Text}
pub mod Calls
pub mod Answers

pub data ChatMessageRole : Type 0 where
  user agent : ChatMessageRole

pub data ChatPermissionMode : Type 0 where
  auto ask locked : ChatPermissionMode

pub data PermissionDecision : Type 0 where
  allow allow_task deny : PermissionDecision

pub record TokenUsage : Type 0 where
  pub input_tokens : ℕ
  pub output_tokens : ℕ

-- The input is its JSON text, and so is the output, unless it is null.
pub record ToolCall : Type 0 where
  pub name : Key
  pub input : Text
  pub output : Option Text

pub record ChatMessage : Type 0 where
  pub id : Key
  pub role : ChatMessageRole
  pub text : Text
  pub tool_calls : List ToolCall
  pub usage : Option TokenUsage
  pub cost : Option ℕ
  pub streaming : Bool
  pub created_at : ℕ

pub record PendingPermission : Type 0 where
  pub request_id : Key
  pub tool_name : Key
  pub tool_input : Text

pub data SseEvent : Type 0 where
  system : (session_id : Key) → (thread_id : Option Key) → (tool_count : ℕ) → SseEvent
  text : (content : Text) → SseEvent
  text_delta : (delta : Text) → SseEvent
  tool_use : (name : Key) → (input : Text) → SseEvent
  tool_result : (name : Key) → (output : Option Text) → SseEvent
  result : TokenUsage → (cost : Option ℕ) → SseEvent
  error : (message : Text) → SseEvent
  permission_request : PendingPermission → SseEvent
  done : SseEvent

-- The loop over the stream comes to its end, or throws: an `AbortError`, another error, or a value
-- that is no error.
pub data StreamEnd : Type 0 where
  finished aborted : StreamEnd
  failed : Option Text → StreamEnd

pub record ChatStore : Type 0 where
  pub messages : List ChatMessage
  pub session_id : Option Key
  pub thread_id : Option Key
  pub streaming : Bool
  pub error : Option Text
  pub session_cost_usd : ℕ
  pub tool_call_count : ℕ
  pub permission_mode : ChatPermissionMode
  pub approved_tools : List Key
  pub pending_permission : Option PendingPermission
  pub model : Key
  pub system_instructions : Text
  pub dev_mode : Bool

-- `newUserMessage`
abbrev pub new_user_message : (id : Key) → Text → (now : ℕ) → ChatMessage
new_user_message id content now = record {
  id = id;
  role = user;
  text = content;
  tool_calls = [];
  usage = none;
  cost = none;
  streaming = false;
  created_at = now;
}

-- `newAgentMessage`
abbrev pub new_agent_message : (id : Key) → (now : ℕ) → ChatMessage
new_agent_message id now = record {
  id = id;
  role = agent;
  text = [];
  tool_calls = [];
  usage = none;
  cost = none;
  streaming = true;
  created_at = now;
}

-- `tc.output === null ? { ...tc, output: '(completed)' } : tc`
abbrev pub complete_call : ToolCall → ToolCall
complete_call c =
    if is_some c.output then c else record c { output = some (codes "\"(completed)\"") }

-- The loop from the last call down; `none` if no call of the name is open.
abbrev pub fill_last : Key → Option Text → List ToolCall → Option (List ToolCall)
fill_last name output [] = none
fill_last name output (c ∷ cs) = elim (fill_last name output cs) [
  | some filled ↦ some (c ∷ filled)
  | none ↦
      if (c.name == name) && not (is_some c.output)
      then some (record c { output = output } ∷ cs)
      else none
]

-- What the callbacks of `map` make of the agent's message.
unfoldable pub set_text : Text → ChatMessage → ChatMessage
set_text content m = record m { text = content; tool_calls = map complete_call m.tool_calls }

unfoldable pub append_text : Text → ChatMessage → ChatMessage
append_text delta m = record m { text = m.text ++ delta }

unfoldable pub add_call : Key → Text → ChatMessage → ChatMessage
add_call name input m = record m {
  tool_calls =
      map complete_call m.tool_calls ++ record { name = name; input = input; output = none } ∷ [];
}

unfoldable pub fill_call : Key → Option Text → ChatMessage → ChatMessage
fill_call name output m = record m {
  tool_calls = get_or (fill_last name output m.tool_calls) m.tool_calls;
}

unfoldable pub set_result : TokenUsage → ℕ → ChatMessage → ChatMessage
set_result usage cost m = record m { usage = some usage; cost = some cost; streaming = false }

unfoldable pub stop_streaming : ChatMessage → ChatMessage
stop_streaming m = record m { streaming = false }

-- `s.messages.map((m) => m.id === agentMsg.id ? … : m)`
abbrev pub on_answer : Key → (ChatMessage → ChatMessage) → ChatStore → List ChatMessage
on_answer id f s = update (λ m. m.id) id f s.messages

-- A case of the `switch` of `sendMessage`.
unfoldable pub handle_sse : (agent_id : Key) → SseEvent → ChatStore → ChatStore
handle_sse id (system session thread n) s = record s {
  session_id = some session;
  thread_id = if is_some thread && not (is_some s.thread_id) then thread else s.thread_id;
}
handle_sse id (text content) s = record s { messages = on_answer id (set_text content) s }
handle_sse id (text_delta delta) s = record s { messages = on_answer id (append_text delta) s }
handle_sse id (tool_use name input) s = record s {
  tool_call_count = s.tool_call_count + 1;
  messages = on_answer id (add_call name input) s;
}
handle_sse id (tool_result name output) s = record s {
  messages = on_answer id (fill_call name output) s;
}
handle_sse id (result usage cost) s = record s {
  session_cost_usd = s.session_cost_usd + get_or cost 0;
  messages = on_answer id (set_result usage (get_or cost 0)) s;
}
handle_sse id (error message) s = record s {
  error = some message;
  messages = on_answer id stop_streaming s;
}
handle_sse id (permission_request p) s = record s { pending_permission = some p }
handle_sse id done s = record s { messages = on_answer id stop_streaming s }

-- The loop `for await (const event of gen)`.
abbrev pub handle_stream : (agent_id : Key) → List SseEvent → ChatStore → ChatStore
handle_stream id [] s = s
handle_stream id (e ∷ es) s = handle_stream id es (handle_sse id e s)

-- The `catch` block of `sendMessage`.
unfoldable pub end_stream : (agent_id : Key) → StreamEnd → ChatStore → ChatStore
end_stream id finished s = s
end_stream id aborted s = record s { messages = on_answer id stop_streaming s }
end_stream id (failed message) s = record s {
  error = some (get_or message (codes "Chat failed"));
  messages = on_answer id stop_streaming s;
}

-- `sendMessage`, with the ids that are drawn and the clock, for a stream that no other call of the
-- store comes between.
unfoldable pub send_chat :
    (user_id agent_id : Key) → (now : ℕ) → Text → List SseEvent → StreamEnd → ChatStore → ChatStore
send_chat user_id agent_id now content events ending s =
    if s.streaming
    then s
    else let begun : ChatStore = record s {
      messages =
          s.messages ++ new_user_message user_id content now ∷ new_agent_message agent_id now ∷ [];
      streaming = true;
      error = none;
    } in
      let over = end_stream agent_id ending (handle_stream agent_id events begun) in
      record over { streaming = false }

-- `loadThread`, before the history is there.
unfoldable pub load_thread : Key → ChatStore → ChatStore
load_thread id s = record s {
  messages = [];
  thread_id = some id;
  session_id = none;
  streaming = false;
  error = none;
  session_cost_usd = 0;
  tool_call_count = 0;
}

-- A row of the history, with what its `toolCalls` reads back as, `none` if it is no array.
pub record HistoryRow : Type 0 where
  pub id : Key
  pub role : ChatMessageRole
  pub content : Text
  pub tool_calls : Option (List ToolCall)
  pub created_at : ℕ

abbrev pub message_of_row : HistoryRow → ChatMessage
message_of_row row = record {
  id = row.id;
  role = row.role;
  text = row.content;
  tool_calls = get_or row.tool_calls [];
  usage = none;
  cost = none;
  streaming = false;
  created_at = row.created_at;
}

abbrev pub shows_thread : Key → ChatStore → Bool
shows_thread id s = elim s.thread_id [ none ↦ false | some k ↦ k == id ]

-- What `loadThread` does when the history comes, and when its request fails.
unfoldable pub apply_history : Key → List HistoryRow → ChatStore → ChatStore
apply_history id rows s =
    if shows_thread id s then record s { messages = map message_of_row rows } else s

unfoldable pub fail_history : Key → Option Text → ChatStore → ChatStore
fail_history id message s =
    if shows_thread id s
    then record s { error = some (get_or message (codes "Failed to load history")) }
    else s

-- `clearChat`
unfoldable pub clear_chat : ChatStore → ChatStore
clear_chat s = record s {
  messages = [];
  session_id = none;
  thread_id = none;
  streaming = false;
  error = none;
  session_cost_usd = 0;
  tool_call_count = 0;
  pending_permission = none;
  approved_tools = [];
}

-- `setPermissionMode`, `setModel`, `setSystemInstructions`, `toggleDevMode`
abbrev pub set_permission_mode : ChatPermissionMode → ChatStore → ChatStore
set_permission_mode mode s = record s { permission_mode = mode }

abbrev pub set_model : Key → ChatStore → ChatStore
set_model name s = record s { model = name }

abbrev pub set_system_instructions : Text → ChatStore → ChatStore
set_system_instructions instructions s = record s { system_instructions = instructions }

abbrev pub toggle_dev_mode : ChatStore → ChatStore
toggle_dev_mode s = record s { dev_mode = not s.dev_mode }

-- The request of `respondToPermission`.
pub record PermissionReply : Type 0 where
  pub request_id : Key
  pub decision : PermissionDecision
  pub session_id : Key

abbrev pub with_tool : Key → List Key → List Key
with_tool name tools = if exists_in (λ k. k == name) tools then tools else tools ++ name ∷ []

abbrev pub approve : PermissionDecision → Option PendingPermission → ChatStore → ChatStore
approve allow_task (some p) s = record s { approved_tools = with_tool p.tool_name s.approved_tools }
approve allow_task none s = s
approve allow p s = s
approve deny p s = s

-- `respondToPermission`: the request that is sent, if a session is there.
unfoldable pub respond_to_permission :
    (request_id : Key) → PermissionDecision → ChatStore → Option PermissionReply × ChatStore
respond_to_permission request decision s =
    let answered : ChatStore = record s { pending_permission = none } in
    elim s.session_id [
      | none ↦ (none, answered)
      | some session ↦ (
        some (record { request_id = request; decision = decision; session_id = session }),
        approve decision s.pending_permission answered,
      )
    ]
