-- ===== src/Tests/Web.antt =====
-- A chat with one tool call, whose stream is cut before it is over.
use baara_next.Base.{
  List, [], ◌∷◌, ◌++◌, ◌+◌, ◌≡◌, ◌&&◌, false, none, some, refl, arith, not, exists_in, keep, length,
}
use baara_next.Web.ChatStore.{
  ChatMessage, ChatStore, SseEvent, system, text_delta, tool_use, tool_result, aborted, auto,
  send_chat, new_user_message,
}
use baara_next.Web.ChatStore.Calls.{IsSettled}
use baara_next.Web.ChatStore.Answers.{said, is_last, is_tool_use, runs_out, send_chat-answers}

abbrev idle_chat : ChatStore
idle_chat = record {
  messages = new_user_message 3 (72 ∷ []) 5 ∷ [];
  session_id = none;
  thread_id = none;
  streaming = false;
  error = none;
  session_cost_usd = 0;
  tool_call_count = 0;
  permission_mode = auto;
  approved_tools = [];
  pending_permission = none;
  model = 1;
  system_instructions = [];
  dev_mode = false;
}

abbrev sse_events : List SseEvent
sse_events =
    system 4 (some 5) 2
    ∷ text_delta (72 ∷ [])
    ∷ tool_use 9 []
    ∷ tool_result 9 (some (49 ∷ []))
    ∷ text_delta (73 ∷ [])
    ∷ []

send_chat-answers_example :
    (a : ChatMessage) × ((send_chat 7 8 6 (81 ∷ []) sse_events aborted idle_chat).messages
      ≡ idle_chat.messages ++ new_user_message 7 (81 ∷ []) 6 ∷ a ∷ [])
    × (a.text ≡ said [] sse_events)
    × IsSettled a.tool_calls
    × (a.streaming ≡ (not (exists_in is_last sse_events) && runs_out aborted))
    × ((send_chat 7 8 6 (81 ∷ []) sse_events aborted idle_chat).tool_call_count
        ≡ 0 + length (keep is_tool_use sse_events))
    × ((send_chat 7 8 6 (81 ∷ []) sse_events aborted idle_chat).streaming ≡ false)
send_chat-answers_example =
    send_chat-answers 7 8 6 (81 ∷ []) sse_events aborted idle_chat refl refl (omega arith)
