-- ===== src/Executor/MessageBus/Mailbox.antt =====
-- What the commands of packages/executor/src/message-bus.ts promise: a mailbox for each execution,
-- read in the order of sending until a command is acknowledged.
use baara_next.Base.{ℕ, List, [], ◌∷◌, ◌++◌, Bool, not, ◌==◌, keep, map, exists_in}
use baara_next.Core.Types.{Key, Text}
use baara_next.Core.Conversation.{InboundCommand, Checkpoint, Level}
use baara_next.Executor.MessageBus.{PendingCommand}

pub record Posted : Type 0 where
  pub execution_id : Key
  pub pending : PendingCommand

abbrev pub Mail : Type 0
Mail = List Posted

-- A call of the bus that writes, with the id that is drawn for its row and its times.
pub data Call : Type 0 where
  send : (id execution_id : Key) → InboundCommand → (now : ℕ) → Call
  acknowledge : List Key → Call
  checkpoint : (id execution_id : Key) → Checkpoint → (now : ℕ) → Call
  log : (id execution_id : Key) → Level → Text → (ts now : ℕ) → Call

abbrev pub is_settled_by : List Key → Posted → Bool
is_settled_by ids p = exists_in (λ id. id == p.pending.id) ids

-- What a call means for the mail.
abbrev pub intend : Call → Mail → Mail
intend (send id execution_id c now) mail =
    mail ++ (record { execution_id = execution_id; pending = record { id = id; command = c } }) ∷ []
intend (acknowledge ids) mail = keep (λ p. not (is_settled_by ids p)) mail
intend (checkpoint id execution_id c now) mail = mail
intend (log id execution_id level message ts now) mail = mail

abbrev pub intend_all : List Call → Mail → Mail
intend_all [] mail = mail
intend_all (c ∷ cs) mail = intend_all cs (intend c mail)

-- The commands to one execution that wait, the oldest first.
abbrev pub outstanding : Key → Mail → List PendingCommand
outstanding k mail = map (λ p. p.pending) (keep (λ p. p.execution_id == k) mail)
