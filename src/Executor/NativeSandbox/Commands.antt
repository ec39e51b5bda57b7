-- ===== src/Executor/NativeSandbox/Commands.antt =====
-- The commands of packages/executor/src/sandboxes/native.ts: `sendCommand`, and the poll of the bus
-- every two seconds.
use baara_next.Base.{ℕ, List, [], ◌∷◌, ◌++◌, true, false, none, some, map, codes}
use baara_next.Core.Errors.{Result, ok, ◌>>=◌}
use baara_next.Core.Types.{Key}
use baara_next.Core.Conversation.{
  InboundCommand, command, hitl_response, pause, resume, type_of, info,
}
use baara_next.Executor.MessageBus.{
  Bus, PendingCommand, send_command, read_pending_commands, acknowledge_commands,
}
use baara_next.Executor.NativeSandbox.{Session, Host, push_log}

-- The `switch` on the type of the command.
abbrev pub obey : InboundCommand → Session → Session
obey (command prompt) s = record s { pending_prompts = s.pending_prompts ++ prompt ∷ [] }
obey (hitl_response response) s = s
obey pause s = record s { paused = true }
obey resume s = record s { paused = false }

-- Nothing is acknowledged when nothing is pending.
abbrev pub acknowledge_pending : List Key → Bus → Bus
acknowledge_pending [] bus = bus
acknowledge_pending (id ∷ ids) bus = acknowledge_commands (id ∷ ids) bus

module _ (host : Host) (execution_id : Key) where
  abbrev pub receive : List PendingCommand → ℕ → Session → Session
  receive [] now s = s
  receive (p ∷ ps) now s =
      let line = codes "[command] received: " ++ host.key_text (type_of p.command) in
      receive ps now (obey p.command (push_log info line now s))

  -- One turn of the poll.
  unfoldable pub poll_commands : ℕ → Session → Result Session
  poll_commands now s = elim s.bus [
    | none ↦ ok s
    | some bus ↦ do
      pending ← read_pending_commands host.formats execution_id bus
      let received = receive pending now s
      let ids = map (λ (p : PendingCommand). p.id) pending
      ok (record received { bus = some (acknowledge_pending ids bus) })
  ]

  -- `sendCommand`; without a bus the command is dropped.
  unfoldable pub send_to_session :
      (id : Key) → InboundCommand → (now : ℕ) → Session → Result Session
  send_to_session id c now s = elim s.bus [
    | none ↦ ok s
    | some bus ↦ do
      after ← send_command host.formats id execution_id c now bus
      ok (record s { bus = some after })
  ]
