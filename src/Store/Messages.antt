-- ===== src/Store/Messages.antt =====
-- The task messages of packages/store/src/sqlite-store.ts: the durable queue under the message bus.
use baara_next.Base.{
  ℕ, List, [], ◌∷◌, ◌++◌, Bool, true, false, not, ◌&&◌, Option, none, some, if◌then◌else◌, ltb,
  ◌==◌, is_some, keep, find, map, exists_in,
}
use baara_next.Core.Errors.{Result, ok, guard, constraint_failed, ◌>>◌}
use baara_next.Core.Types.{
  Key, Text, TaskMessage, Direction, inbound, outbound, MessageStatus, delivered, acknowledged,
}
use baara_next.Store.Schema.{Store, get_execution}

abbrev pub same_direction : Direction → Direction → Bool
same_direction inbound inbound = true
same_direction outbound outbound = true
same_direction _ _ = false

abbrev pub same_message_status : MessageStatus → MessageStatus → Bool
same_message_status MessageStatus.pending MessageStatus.pending = true
same_message_status delivered delivered = true
same_message_status acknowledged acknowledged = true
same_message_status _ _ = false

-- `sendMessage`; the status is the default of the schema.
unfoldable pub send_message :
    (id execution_id : Key) (direction : Direction) (message_type : Key) (payload : Text) (now : ℕ)
    → Store
    → Result Store
send_message id execution_id direction message_type payload now s = do
  guard (not (is_some (find (λ m. m.id) id s.task_messages))) constraint_failed
  guard (is_some (get_execution execution_id s)) constraint_failed
  let m : TaskMessage = record {
    id = id;
    execution_id = execution_id;
    direction = direction;
    message_type = message_type;
    payload = payload;
    status = MessageStatus.pending;
    created_at = now;
  }
  ok (record s { task_messages = s.task_messages ++ m ∷ [] })

abbrev pub insert_message : TaskMessage → List TaskMessage → List TaskMessage
insert_message m [] = m ∷ []
insert_message m (x ∷ xs) =
    if ltb x.created_at m.created_at then x ∷ insert_message m xs else m ∷ x ∷ xs

-- `ORDER BY created_at ASC`, rows of one second in the order of insertion.
abbrev pub in_order : List TaskMessage → List TaskMessage
in_order [] = []
in_order (m ∷ ms) = insert_message m (in_order ms)

abbrev pub has_message_status : Option MessageStatus → TaskMessage → Bool
has_message_status none m = true
has_message_status (some status) m = same_message_status m.status status

-- `readMessages`
unfoldable pub read_messages : Key → Direction → Option MessageStatus → Store → List TaskMessage
read_messages execution_id direction status s = in_order (
    keep
      (λ m.
        m.execution_id == execution_id
        && (same_direction m.direction direction && has_message_status status m))
      s.task_messages)

-- `acknowledgeMessages`; an empty list runs no statement, and changes nothing either way.
unfoldable pub acknowledge_messages : List Key → Store → Store
acknowledge_messages ids s = record s {
  task_messages =
      map
        (λ (m : TaskMessage).
          if exists_in (λ id. id == m.id) ids then record m { status = acknowledged } else m)
        s.task_messages;
}

-- `ORDER BY created_at DESC, rowid DESC LIMIT 1`; the row ids follow the order of insertion.
abbrev pub latest : List TaskMessage → Option TaskMessage
latest [] = none
latest (m ∷ ms) = elim (latest ms) [
  | none ↦ some m
  | some x ↦ if ltb x.created_at m.created_at then some m else some x
]

abbrev pub is_message_of : Key → Direction → Key → TaskMessage → Bool
is_message_of execution_id direction message_type m =
    m.execution_id == execution_id
    && (same_direction m.direction direction && m.message_type == message_type)

-- `readLatestMessage`
unfoldable pub read_latest_message : Key → Direction → Key → Store → Option TaskMessage
read_latest_message execution_id direction message_type s =
    latest (keep (is_message_of execution_id direction message_type) s.task_messages)
