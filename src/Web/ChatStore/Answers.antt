-- ===== src/Web/ChatStore/Answers.antt =====
-- What a message to the agent leaves in the chat store of packages/web/src/stores/chat-store.ts.
use baara_next.Base.{
  ℕ, ◌+◌, List, [], ◌∷◌, ◌++◌, Bool, true, false, not, ◌&&◌, none, ◌≡◌, ◌≢◌, refl, arith, find,
  update, exists_in, keep, length, get_or, ◌∙◌, if◌then◌else◌,
}
use baara_next.Core.Types.{Key, Text}
use baara_next.Web.ChatStore.Calls.{
  IsSettled, add_call-IsSettled, complete-IsSettled, fill_call-IsSettled,
}
use baara_next.Web.ChatStore.{
  ChatMessage, ChatStore, SseEvent, StreamEnd, system, text, text_delta, tool_use, tool_result,
  result, error, permission_request, done, finished, aborted, failed, set_text, append_text,
  add_call, fill_call, set_result, stop_streaming, handle_sse, handle_stream, end_stream, send_chat,
  new_user_message, new_agent_message,
}

-- What the agent has said: a text takes the place of what came before, a delta follows it.
abbrev pub said : Text → List SseEvent → Text
said before [] = before
said before (text content ∷ es) = said content es
said before (text_delta delta ∷ es) = said (before ++ delta) es
said before (e ∷ es) = said before es

abbrev pub is_tool_use : SseEvent → Bool
is_tool_use (tool_use name input) = true
is_tool_use e = false

-- After these events the answer is over.
abbrev pub is_last : SseEvent → Bool
is_last (result usage cost) = true
is_last (error message) = true
is_last done = true
is_last e = false

abbrev pub runs_out : StreamEnd → Bool
runs_out finished = true
runs_out e = false

-- What the callback of an event makes of the answer.
abbrev answer_sse : SseEvent → ChatMessage → ChatMessage
answer_sse (system session thread n) m = m
answer_sse (text content) m = set_text content m
answer_sse (text_delta delta) m = append_text delta m
answer_sse (tool_use name input) m = add_call name input m
answer_sse (tool_result name output) m = fill_call name output m
answer_sse (result usage cost) m = set_result usage (get_or cost 0) m
answer_sse (error message) m = stop_streaming m
answer_sse (permission_request p) m = m
answer_sse done m = stop_streaming m

update-answer :
    (id : Key) (f : ChatMessage → ChatMessage) (before : List ChatMessage) (u m : ChatMessage)
    → find (λ x. x.id) id before ≡ none
    → u.id ≢ id
    → m.id ≡ id
    → update (λ x. x.id) id f (before ++ u ∷ m ∷ []) ≡ before ++ u ∷ f m ∷ []
update-answer id f [] u m new other same = ground arith
update-answer id f (x ∷ xs) u m new other same = ground (arith, update-answer id f xs u m)

answer_sse-id : (e : SseEvent) (m : ChatMessage) → (answer_sse e m).id ≡ m.id
unfolding set_text append_text add_call fill_call set_result stop_streaming
answer_sse-id (system session thread n) m = refl
answer_sse-id (text content) m = refl
answer_sse-id (text_delta delta) m = refl
answer_sse-id (tool_use name input) m = refl
answer_sse-id (tool_result name output) m = refl
answer_sse-id (result usage cost) m = refl
answer_sse-id (error message) m = refl
answer_sse-id (permission_request p) m = refl
answer_sse-id done m = refl

answer_sse-text :
    (e : SseEvent) (es : List SseEvent) (m : ChatMessage)
    → said (answer_sse e m).text es ≡ said m.text (e ∷ es)
unfolding set_text append_text add_call fill_call set_result stop_streaming
answer_sse-text (system session thread n) es m = refl
answer_sse-text (text content) es m = refl
answer_sse-text (text_delta delta) es m = refl
answer_sse-text (tool_use name input) es m = refl
answer_sse-text (tool_result name output) es m = refl
answer_sse-text (result usage cost) es m = refl
answer_sse-text (error message) es m = refl
answer_sse-text (permission_request p) es m = refl
answer_sse-text done es m = refl

answer_sse-streaming :
    (e : SseEvent) (es : List SseEvent) (m : ChatMessage)
    → ((answer_sse e m).streaming && not (exists_in is_last es))
      ≡ (m.streaming && not (exists_in is_last (e ∷ es)))
unfolding set_text append_text add_call fill_call set_result stop_streaming
answer_sse-streaming (system session thread n) es m = refl
answer_sse-streaming (text content) es m = refl
answer_sse-streaming (text_delta delta) es m = refl
answer_sse-streaming (tool_use name input) es m = refl
answer_sse-streaming (tool_result name output) es m = refl
answer_sse-streaming (result usage cost) es m = ground arith
answer_sse-streaming (error message) es m = ground arith
answer_sse-streaming (permission_request p) es m = refl
answer_sse-streaming done es m = ground arith

answer_sse-IsSettled :
    (e : SseEvent) (m : ChatMessage)
    → IsSettled m.tool_calls
    → IsSettled (answer_sse e m).tool_calls
unfolding set_text append_text add_call fill_call set_result stop_streaming
answer_sse-IsSettled (system session thread n) m h = h
answer_sse-IsSettled (text content) m h = complete-IsSettled m.tool_calls
answer_sse-IsSettled (text_delta delta) m h = h
answer_sse-IsSettled (tool_use name input) m h =
    add_call-IsSettled m.tool_calls (record { name = name; input = input; output = none })
answer_sse-IsSettled (tool_result name output) m h = fill_call-IsSettled name output m h
answer_sse-IsSettled (result usage cost) m h = h
answer_sse-IsSettled (error message) m h = h
answer_sse-IsSettled (permission_request p) m h = h
answer_sse-IsSettled done m h = h

handle_sse-count :
    (id : Key) (e : SseEvent) (s : ChatStore)
    → (handle_sse id e s).tool_call_count ≡ s.tool_call_count + (if is_tool_use e then 1 else 0)
unfolding handle_sse
handle_sse-count id (system session thread n) s = omega arith
handle_sse-count id (text content) s = omega arith
handle_sse-count id (text_delta delta) s = omega arith
handle_sse-count id (tool_use name input) s = omega arith
handle_sse-count id (tool_result name output) s = omega arith
handle_sse-count id (result usage cost) s = omega arith
handle_sse-count id (error message) s = omega arith
handle_sse-count id (permission_request p) s = omega arith
handle_sse-count id done s = omega arith

handle_stream-count :
    (id : Key) (es : List SseEvent) (s : ChatStore)
    → (handle_stream id es s).tool_call_count ≡ s.tool_call_count + length (keep is_tool_use es)
handle_stream-count id [] s = omega arith
handle_stream-count id (e ∷ es) s =
    ground (arith, handle_stream-count id es (handle_sse id e s), handle_sse-count id e s)

module _ (id : Key) (before : List ChatMessage) (u : ChatMessage)
    (new : find (λ x. x.id) id before ≡ none) (other : u.id ≢ id) where
  changed :
      (f : ChatMessage → ChatMessage) (s : ChatStore) (m : ChatMessage)
      → m.id ≡ id
      → s.messages ≡ before ++ u ∷ m ∷ []
      → update (λ x. x.id) id f s.messages ≡ before ++ u ∷ f m ∷ []
  changed f s m same shape = rw shape (update-answer id f before u m new other same)

  handle_sse-messages :
      (e : SseEvent) (s : ChatStore) (m : ChatMessage)
      → m.id ≡ id
      → s.messages ≡ before ++ u ∷ m ∷ []
      → (handle_sse id e s).messages ≡ before ++ u ∷ answer_sse e m ∷ []
  unfolding handle_sse
  handle_sse-messages (system session thread n) s m same shape = shape
  handle_sse-messages (text content) s m same shape = changed (set_text content) s m same shape
  handle_sse-messages (text_delta delta) s m same shape = changed (append_text delta) s m same shape
  handle_sse-messages (tool_use name input) s m same shape =
      changed (add_call name input) s m same shape
  handle_sse-messages (tool_result name output) s m same shape =
      changed (fill_call name output) s m same shape
  handle_sse-messages (result usage cost) s m same shape =
      changed (set_result usage (get_or cost 0)) s m same shape
  handle_sse-messages (error message) s m same shape = changed stop_streaming s m same shape
  handle_sse-messages (permission_request p) s m same shape = shape
  handle_sse-messages done s m same shape = changed stop_streaming s m same shape

  handle_stream-answer :
      (es : List SseEvent) (s : ChatStore) (m : ChatMessage)
      → m.id ≡ id
      → s.messages ≡ before ++ u ∷ m ∷ []
      → IsSettled m.tool_calls
      → (a : ChatMessage) × ((handle_stream id es s).messages ≡ before ++ u ∷ a ∷ [])
        × (a.id ≡ id)
        × (a.text ≡ said m.text es)
        × (a.streaming ≡ (m.streaming && not (exists_in is_last es)))
        × IsSettled a.tool_calls
  handle_stream-answer [] s m same shape settled = (m, shape, same, refl, ground arith, settled)
  handle_stream-answer (e ∷ es) s m same shape settled =
      let (a, shown, named, says, runs, left) =
        handle_stream-answer es (handle_sse id e s) (answer_sse e m) (answer_sse-id e m ∙ same)
          (handle_sse-messages e s m same shape) (answer_sse-IsSettled e m settled) in
      (a, shown, named, says ∙ answer_sse-text e es m, runs ∙ answer_sse-streaming e es m, left)

  end_stream-answer :
      (ending : StreamEnd) (s : ChatStore) (m : ChatMessage)
      → m.id ≡ id
      → s.messages ≡ before ++ u ∷ m ∷ []
      → (a : ChatMessage) × ((end_stream id ending s).messages ≡ before ++ u ∷ a ∷ [])
        × (a.text ≡ m.text)
        × (a.streaming ≡ (m.streaming && runs_out ending))
        × (a.tool_calls ≡ m.tool_calls)
  unfolding end_stream stop_streaming
  end_stream-answer finished s m same shape = (m, shape, refl, ground arith, refl)
  end_stream-answer aborted s m same shape =
      (stop_streaming m, changed stop_streaming s m same shape, refl, ground arith, refl)
  end_stream-answer (failed message) s m same shape =
      (stop_streaming m, changed stop_streaming s m same shape, refl, ground arith, refl)

end_stream-count :
    (id : Key) (ending : StreamEnd) (s : ChatStore)
    → (end_stream id ending s).tool_call_count ≡ s.tool_call_count
unfolding end_stream
end_stream-count id finished s = refl
end_stream-count id aborted s = refl
end_stream-count id (failed message) s = refl

-- A message that is sent while none is answered, with ids that are new, adds itself and one answer, and
-- changes no older message, whatever events come and however their stream ends. The answer has the text
-- that the events say, only its last tool call may wait for an output, every call is counted, and it is
-- shown as running only if the stream ran out without a result, an error or a last event. The store
-- takes the next message.
pub send_chat-answers :
    (user_id agent_id : Key) (now : ℕ) (content : Text) (es : List SseEvent) (ending : StreamEnd)
    (s : ChatStore)
    → s.streaming ≡ false
    → find (λ x. x.id) agent_id s.messages ≡ none
    → user_id ≢ agent_id
    → (a : ChatMessage) × ((send_chat user_id agent_id now content es ending s).messages
        ≡ s.messages ++ new_user_message user_id content now ∷ a ∷ [])
      × (a.text ≡ said [] es)
      × IsSettled a.tool_calls
      × (a.streaming ≡ (not (exists_in is_last es) && runs_out ending))
      × ((send_chat user_id agent_id now content es ending s).tool_call_count
          ≡ s.tool_call_count + length (keep is_tool_use es))
      × ((send_chat user_id agent_id now content es ending s).streaming ≡ false)
unfolding send_chat
send_chat-answers user_id agent_id now content es ending s idle new other =
    let u = new_user_message user_id content now in
    let m = new_agent_message agent_id now in
    let begun : ChatStore = record s {
      messages = s.messages ++ u ∷ m ∷ [];
      streaming = true;
      error = none;
    } in
    let (a, shown, named, says, runs, settled) =
      handle_stream-answer agent_id s.messages u new other es begun m refl refl tt in
    let (b, last_shown, same, stops, calls) =
      end_stream-answer agent_id s.messages u new other ending (handle_stream agent_id es begun) a
        named shown in
    let counted =
      end_stream-count agent_id ending (handle_stream agent_id es begun)
      ∙ handle_stream-count agent_id es begun in
    (
      b,
      rw idle last_shown,
      same ∙ says,
      rw calls settled,
      rw (stops, runs) refl,
      rw idle counted,
      rw idle refl,
    )
