-- ===== src/Store/Logs.antt =====
-- What `listEvents` and `readLatestMessage` of packages/store/src/sqlite-store.ts read back.
use baara_next.Base.{
  ℕ, List, [], ◌∷◌, ◌++◌, ◌+◌, ◌≤◌, Bool, true, ◌&&◌, none, some, ◌≡◌, refl, subst, arith, keep,
  All-keep, ◌==◌, All, Bool-cases, inl, inr, ==_refl,
}
use baara_next.Core.Errors.{ok}
use baara_next.Core.Types.{Key, Text, TaskMessage, Direction, inbound, outbound, MessageStatus}
use baara_next.Core.Events.{Event}
use baara_next.Store.Schema.{Store}
use baara_next.Store.Events.{max_seq, list_events, by_seq, insert_by_seq, is_after}
use baara_next.Store.Messages.{
  send_message, read_latest_message, latest, is_message_of, same_direction,
}
use baara_next.Store.Soundness.{IsSound, IsNumbered, max_seq-append}

-- The events carry the numbers from `n` on, one after the other.
abbrev pub IsConsecutive : (n : ℕ) → List Event → Type 0
IsConsecutive n [] = Unit
IsConsecutive n (e ∷ es) = (e.event_seq ≡ n) × IsConsecutive (n + 1) es

abbrev pub of_execution : Key → Event → Bool
of_execution k e = e.execution_id == k && is_after none e

numbered-IsConsecutive :
    (k : Key) (seen es : List Event)
    → IsNumbered seen es
    → IsConsecutive (max_seq k seen + 1) (keep (of_execution k) es)
numbered-IsConsecutive k seen [] h = tt
numbered-IsConsecutive k seen (e ∷ es) h =
    let rest = numbered-IsConsecutive k (seen ++ e ∷ []) es h.1 in
    let more = max_seq-append k seen (e ∷ []) in
    elim (Bool-cases (e.execution_id == k)) [
      | inl mine ↦
          let same : e.execution_id ≡ k = ground arith in
          let number : e.event_seq ≡ max_seq k seen + 1 = rw (← same) h.0 in
          let next : max_seq k (seen ++ e ∷ []) ≡ max_seq k seen + 1 = ground arith in
          rw mine (number, subst (λ n. IsConsecutive (n + 1) (keep (of_execution k) es)) next rest)
      | inr other ↦
          let next : max_seq k (seen ++ e ∷ []) ≡ max_seq k seen = ground arith in
          rw other (subst (λ n. IsConsecutive (n + 1) (keep (of_execution k) es)) next rest)
    ]

insert_first :
    (n : ℕ) (e : Event) (es : List Event)
    → e.event_seq ≡ n
    → IsConsecutive (n + 1) es
    → insert_by_seq e es ≡ e ∷ es
insert_first n e [] h c = refl
insert_first n e (x ∷ es) h c = ground arith

by_seq_consecutive : (n : ℕ) (es : List Event) → IsConsecutive n es → by_seq es ≡ es
by_seq_consecutive n [] c = refl
by_seq_consecutive n (e ∷ es) c =
    rw (by_seq_consecutive (n + 1) es c.1) (insert_first n e es c.0 c.1)

-- In a sound store the log of an execution reads as its events in the order in which they were
-- written, numbered from 1 one after the other.
pub list_events-IsConsecutive :
    (k : Key) (s : Store)
    → IsSound s
    → (list_events k none none s ≡ keep (of_execution k) s.events)
      × IsConsecutive 1 (list_events k none none s)
unfolding list_events
list_events-IsConsecutive k s v =
    let c = numbered-IsConsecutive k [] s.events v.events_numbered in
    let e = by_seq_consecutive 1 (keep (of_execution k) s.events) c in (e, rw e c)

latest_append :
    (ms : List TaskMessage) (m : TaskMessage)
    → All (λ x. x.created_at ≤ m.created_at) ms
    → latest (ms ++ m ∷ []) ≡ some m
latest_append [] m h = refl
latest_append (x ∷ ms) m h = ground (arith, latest_append ms m h.1)

keep-append_last :
    (p : TaskMessage → Bool) (ms : List TaskMessage) (m : TaskMessage)
    → p m ≡ true
    → keep p (ms ++ m ∷ []) ≡ keep p ms ++ m ∷ []
keep-append_last p [] m h = rw h refl
keep-append_last p (x ∷ ms) m h = ground (arith, keep-append_last p ms m h)

same_direction_refl : (d : Direction) → same_direction d d ≡ true
same_direction_refl inbound = refl
same_direction_refl outbound = refl

abbrev pub sent :
    (id execution_id : Key) → Direction → (type : Key) → Text → (now : ℕ) → TaskMessage
sent id execution_id direction type payload now = record {
  id = id;
  execution_id = execution_id;
  direction = direction;
  message_type = type;
  payload = payload;
  status = MessageStatus.pending;
  created_at = now;
}

pub send_message-eq-ok :
    (id execution_id : Key) (d : Direction) (type : Key) (payload : Text) (now : ℕ) (s t : Store)
    → send_message id execution_id d type payload now s ≡ ok t
    → t.task_messages ≡ s.task_messages ++ sent id execution_id d type payload now ∷ []
unfolding send_message
send_message-eq-ok id execution_id d type payload now s t h = ground arith

-- A message that is sent, while the clock has not gone back, is the one that the next read of the latest
-- message of its execution, direction and type returns.
pub read_latest_message-send_message :
    (id execution_id : Key) (d : Direction) (type : Key) (payload : Text) (now : ℕ) (s t : Store)
    → All (λ (m : TaskMessage). m.created_at ≤ now) s.task_messages
    → send_message id execution_id d type payload now s ≡ ok t
    → read_latest_message execution_id d type t ≡ some (sent id execution_id d type payload now)
unfolding read_latest_message
read_latest_message-send_message id execution_id d type payload now s t old h =
    let m = sent id execution_id d type payload now in
    let p = is_message_of execution_id d type in
    let mine : p m ≡ true = rw (==_refl execution_id, same_direction_refl d, ==_refl type) refl in
    rw
      (
        send_message-eq-ok id execution_id d type payload now s t h,
        keep-append_last p s.task_messages m mine,
      )
      (latest_append (keep p s.task_messages) m (All-keep _ p s.task_messages old))
