-- ===== src/Executor/MessageBus/Refinement.antt =====
-- The commands of packages/executor/src/message-bus.ts against the mailboxes that they stand for.
use baara_next.Base.{
  ℕ, List, [], ◌∷◌, ◌++◌, ◌≤◌, Bool, true, false, not, ◌&&◌, some, ◌==◌, ◌≡◌, refl, arith, All,
  All-imp, All-append_one, keep, map, exists_in, if◌then◌else◌, All-keep, Bool-cases, inl, inr,
}
use baara_next.Core.Errors.{Result, ok, ◌>>=◌}
use baara_next.Core.Types.{
  Key, TaskMessage, Direction, inbound, outbound, MessageStatus, acknowledged, checkpoint_type,
  log_type,
}
use baara_next.Core.Json.{IsFaithful}
use baara_next.Core.Conversation.{InboundCommand, type_of}
use baara_next.Store.Messages.{
  send_message, read_messages, acknowledge_messages, in_order, insert_message, same_direction,
  has_message_status, same_message_status,
}
use baara_next.Store.Logs.{sent, send_message-eq-ok}
use baara_next.Executor.MessageBus.{
  Bus, Formats, send_command, read_pending_commands, parse_commands, write_checkpoint, append_log,
  acknowledge_commands,
}
use baara_next.Executor.MessageBus.Mailbox.{
  Posted, Mail, Call, send, acknowledge, checkpoint, log, is_settled_by, intend, intend_all,
  outstanding,
}
use baara_next.Executor.MessageBus.{LogEntry}
use baara_next.Core.Errors.{answers}
use baara_next.Core.Types.{Text}

-- The dates follow the order of the rows.
abbrev pub IsOrdered : List TaskMessage → Type 0
IsOrdered [] = Unit
IsOrdered (m ∷ ms) = All (λ (x : TaskMessage). m.created_at ≤ x.created_at) ms × IsOrdered ms

keep-IsOrdered :
    (p : TaskMessage → Bool) (ms : List TaskMessage) → IsOrdered ms → IsOrdered (keep p ms)
keep-IsOrdered p [] h = tt
keep-IsOrdered p (m ∷ ms) h = ground (arith, keep-IsOrdered p ms h.1, All-keep _ p ms h.0)

insert_message_first :
    (m : TaskMessage) (ms : List TaskMessage)
    → All (λ (x : TaskMessage). m.created_at ≤ x.created_at) ms
    → insert_message m ms ≡ m ∷ ms
insert_message_first m [] h = refl
insert_message_first m (x ∷ ms) h = ground arith

in_order_ordered : (ms : List TaskMessage) → IsOrdered ms → in_order ms ≡ ms
in_order_ordered [] h = refl
in_order_ordered (m ∷ ms) h = rw (in_order_ordered ms h.1) (insert_message_first m ms h.0)

IsOrdered-append_one :
    (ms : List TaskMessage) (m : TaskMessage)
    → IsOrdered ms
    → All (λ (x : TaskMessage). x.created_at ≤ m.created_at) ms
    → IsOrdered (ms ++ m ∷ [])
IsOrdered-append_one [] m h o = (tt, tt)
IsOrdered-append_one (x ∷ ms) m h o =
    (All-append_one _ ms m h.0 o.0, IsOrdered-append_one ms m h.1 o.1)

-- An inbound row that is still pending.
abbrev pub is_waiting : TaskMessage → Bool
is_waiting m =
    same_direction m.direction inbound && same_message_status m.status MessageStatus.pending

-- What `readPendingCommands` selects.
abbrev is_pending_of : Key → TaskMessage → Bool
is_pending_of k m =
    m.execution_id == k
    && (same_direction m.direction inbound && has_message_status (some MessageStatus.pending) m)

abbrev pub posted : TaskMessage → InboundCommand → Posted
posted m c = record { execution_id = m.execution_id; pending = record { id = m.id; command = c } }

module _ (formats : Formats) where
  -- The rows stand for the mail.
  pub data Shows : List TaskMessage → Mail → Type 0 where
    nothing : Shows [] []
    passed :
        (m : TaskMessage) {ms : List TaskMessage} {mail : Mail}
        → is_waiting m ≡ false
        → Shows ms mail
        → Shows (m ∷ ms) mail
    waiting :
        (m : TaskMessage) (c : InboundCommand) {ms : List TaskMessage} {mail : Mail}
        → is_waiting m ≡ true
        → formats.commands.parse m.payload ≡ some c
        → Shows ms mail
        → Shows (m ∷ ms) (posted m c ∷ mail)

  parse_commands_shown :
      (k : Key) (ms : List TaskMessage) (mail : Mail)
      → Shows ms mail
      → parse_commands formats (keep (is_pending_of k) ms) ≡ ok (outstanding k mail)
  parse_commands_shown k _ _ nothing = refl
  parse_commands_shown k _ _ (passed m {ms} {mail} h r) =
      ground (arith, parse_commands_shown k ms mail r)
  parse_commands_shown k _ _ (waiting m c {ms} {mail} h e r) =
      ground (arith, parse_commands_shown k ms mail r)

  shows_append :
      (ms : List TaskMessage) (mail : Mail) (m : TaskMessage) (c : InboundCommand)
      → is_waiting m ≡ true
      → formats.commands.parse m.payload ≡ some c
      → Shows ms mail
      → Shows (ms ++ m ∷ []) (mail ++ posted m c ∷ [])
  shows_append _ _ m c w e nothing = waiting m c w e nothing
  shows_append _ _ m c w e (passed x {ms} {mail} h r) = passed x h (shows_append ms mail m c w e r)
  shows_append _ _ m c w e (waiting x d {ms} {mail} h f r) =
      waiting x d h f (shows_append ms mail m c w e r)

  shows_append_other :
      (ms : List TaskMessage) (mail : Mail) (m : TaskMessage)
      → is_waiting m ≡ false
      → Shows ms mail
      → Shows (ms ++ m ∷ []) mail
  shows_append_other _ _ m w nothing = passed m w nothing
  shows_append_other _ _ m w (passed x {ms} {mail} h r) =
      passed x h (shows_append_other ms mail m w r)
  shows_append_other _ _ m w (waiting x d {ms} {mail} h f r) =
      waiting x d h f (shows_append_other ms mail m w r)

  -- The row after an acknowledgement of the ids.
  abbrev settled : List Key → TaskMessage → TaskMessage
  settled ids m = if exists_in (λ id. id == m.id) ids then record m { status = acknowledged } else m

  settled_waits_not :
      (ids : List Key) (m : TaskMessage) → is_waiting m ≡ false → is_waiting (settled ids m) ≡ false
  settled_waits_not ids m h = ground arith

  shows_acknowledge :
      (ids : List Key) (ms : List TaskMessage) (mail : Mail)
      → Shows ms mail
      → Shows (map (settled ids) ms) (keep (λ p. not (is_settled_by ids p)) mail)
  shows_acknowledge ids _ _ nothing = nothing
  shows_acknowledge ids _ _ (passed x {ms} {mail} h r) =
      passed (settled ids x) (settled_waits_not ids x h) (shows_acknowledge ids ms mail r)
  shows_acknowledge ids _ _ (waiting x d {ms} {mail} h f r) =
      let rest = shows_acknowledge ids ms mail r in
      elim (Bool-cases (exists_in (λ id. id == x.id) ids)) [
        | inl hit ↦ rw hit (passed _ (ground arith) rest)
        | inr miss ↦ rw miss (waiting x d h f rest)
      ]

  All-settled :
      (P : ℕ → Type 0) (ids : List Key) (ms : List TaskMessage)
      → All (λ (m : TaskMessage). P m.created_at) ms
      → All (λ (m : TaskMessage). P m.created_at) (map (settled ids) ms)
  All-settled P ids [] h = tt
  All-settled P ids (m ∷ ms) h = ground (arith, All-settled P ids ms h.1)

  settled_date : (ids : List Key) (m : TaskMessage) → (settled ids m).created_at ≡ m.created_at
  settled_date ids m = ground arith

  settled-IsOrdered :
      (ids : List Key) (ms : List TaskMessage) → IsOrdered ms → IsOrdered (map (settled ids) ms)
  settled-IsOrdered ids [] h = tt
  settled-IsOrdered ids (m ∷ ms) h =
      let kept = All-settled (λ n. m.created_at ≤ n) ids ms h.0 in
      (rw (settled_date ids m) kept, settled-IsOrdered ids ms h.1)

  -- The rows of the bus, none later than the time, stand for the mail.
  pub record Represents (now : ℕ) (bus : Bus) (mail : Mail) : Type 0 where
    pub ordered : IsOrdered bus.store.task_messages
    pub past : All (λ (m : TaskMessage). m.created_at ≤ now) bus.store.task_messages
    pub shown : Shows bus.store.task_messages mail

  unfoldable pub perform : Call → Bus → Result Bus
  perform (send id k c now) bus = send_command formats id k c now bus
  perform (acknowledge ids) bus = ok (acknowledge_commands ids bus)
  perform (checkpoint id k c now) bus = write_checkpoint formats id k c now bus
  perform (log id k level text ts now) bus = append_log formats id k level text ts now bus

  abbrev pub perform_all : List Call → Bus → Result Bus
  perform_all [] bus = ok bus
  perform_all (c ∷ cs) bus = do next ← perform c bus; perform_all cs next

  row_added :
      (id k : Key) (d : Direction) (type : Key) (payload : Text) (m now : ℕ) (bus after : Bus)
      (mail next : Mail)
      → m ≤ now
      → send_message id k d type payload now bus.store ≡ ok after.store
      → Represents m bus mail
      → Shows (bus.store.task_messages ++ sent id k d type payload now ∷ []) next
      → Represents now after next
  row_added id k d type payload m now bus after mail next later h r shows =
      let row = sent id k d type payload now in
      let rows = bus.store.task_messages in
      let eq = send_message-eq-ok id k d type payload now bus.store after.store h in
      let old : All (λ (x : TaskMessage). x.created_at ≤ now) rows =
        All-imp _ _ rows (λ x p. omega arith) r.past in
      record {
        ordered = rw eq (IsOrdered-append_one rows row r.ordered old);
        past = rw eq (All-append_one _ rows row old (omega arith));
        shown = rw eq shows;
      }

-- The time after a call.
abbrev pub time_after : ℕ → Call → ℕ
time_after m (send id k c now) = now
time_after m (acknowledge ids) = m
time_after m (checkpoint id k c now) = now
time_after m (log id k level text ts now) = now

-- The clock does not go back.
abbrev pub IsTimely : ℕ → List Call → Type 0
IsTimely m [] = Unit
IsTimely m (c ∷ cs) = (m ≤ time_after m c) × IsTimely (time_after m c) cs

module _ (formats : Formats) (faithful : IsFaithful formats.commands) where
  pub perform-Represents :
      (c : Call) (m : ℕ) (bus after : Bus) (mail : Mail)
      → m ≤ time_after m c
      → Represents formats m bus mail
      → perform formats c bus ≡ ok after
      → Represents formats (time_after m c) after (intend c mail)
  unfolding perform send_command write_checkpoint append_log acknowledge_commands
      acknowledge_messages
  perform-Represents (send id k c now) m bus after mail later r h =
      let rows = bus.store.task_messages in
      let payload = formats.commands.stringify c in
      let row = sent id k inbound (type_of c) payload now in
      row_added formats id k inbound (type_of c) payload m now bus after mail _ later (ground arith)
        r (shows_append formats rows mail row c refl (faithful c) r.shown)
  perform-Represents (acknowledge ids) m bus after mail later r h =
      let rows = bus.store.task_messages in
      let eq : after.store.task_messages ≡ map (settled formats ids) rows = ground arith in
      record {
        ordered = rw eq (settled-IsOrdered formats ids rows r.ordered);
        past = rw eq (All-settled formats (λ n. n ≤ m) ids rows r.past);
        shown = rw eq (shows_acknowledge formats ids rows mail r.shown);
      }
  perform-Represents (checkpoint id k c now) m bus after mail later r h =
      let payload = formats.checkpoints.stringify c in
      let row = sent id k outbound checkpoint_type payload now in
      row_added formats id k outbound checkpoint_type payload m now bus after mail _ later
        (ground arith) r (shows_append_other formats bus.store.task_messages mail row refl r.shown)
  perform-Represents (log id k level text ts now) m bus after mail later r h =
      let entry : LogEntry = record { ts = ts; level = level; msg = text; execution_id = k } in
      let line = formats.entries.stringify entry in
      let row = sent id k outbound log_type line now in
      row_added formats id k outbound log_type line m now bus after mail _ later (ground arith) r
        (shows_append_other formats bus.store.task_messages mail row refl r.shown)

  pub read_pending_commands_shown :
      (k : Key) (m : ℕ) (bus : Bus) (mail : Mail)
      → Represents formats m bus mail
      → read_pending_commands formats k bus ≡ ok (outstanding k mail)
  unfolding read_pending_commands read_messages
  read_pending_commands_shown k m bus mail r =
      let rows = bus.store.task_messages in
      rw
        (in_order_ordered (keep (is_pending_of k) rows)
          (keep-IsOrdered (is_pending_of k) rows r.ordered))
        (parse_commands_shown formats k rows mail r.shown)

  -- Let the rows of the bus stand for the mail, and let what is written be read back. After calls
  -- that return and whose clock does not go back, a read of the pending commands of an execution
  -- returns exactly the commands that the mailboxes hold for it: those sent and not acknowledged, in
  -- the order of sending.
  pub read_pending_commands-outstanding :
      (calls : List Call) (k : Key) (m : ℕ) (bus after : Bus) (mail : Mail)
      → IsTimely m calls
      → Represents formats m bus mail
      → perform_all formats calls bus ≡ ok after
      → read_pending_commands formats k after ≡ ok (outstanding k (intend_all calls mail))
  read_pending_commands-outstanding [] k m bus after mail timely r h =
      let same : bus ≡ after = ground arith in
      rw (← same) (read_pending_commands_shown k m bus mail r)
  read_pending_commands-outstanding (c ∷ cs) k m bus after mail timely r h =
      elim (answers (perform formats c bus)) [
        | inl (next, done) ↦
            read_pending_commands-outstanding cs k (time_after m c) next after (intend c mail)
              timely.1 (perform-Represents c m bus next mail timely.0 r done) (ground arith)
        | inr (e, thrown) ↦ ground arith
      ]
