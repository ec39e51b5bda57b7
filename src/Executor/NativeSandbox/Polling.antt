-- ===== src/Executor/NativeSandbox/Polling.antt =====
-- What a poll of packages/executor/src/sandboxes/native.ts takes from the bus.
use baara_next.Base.{
  ℕ, List, [], ◌∷◌, ◌++◌, Bool, true, false, not, some, ◌≡◌, refl, arith, map, keep, exists_in,
  ◌==◌, ==_refl, codes, subst, Bool-cases, inl, inr,
}
use mathlib.Core.List.{append_assoc, append-nil}
use baara_next.Core.Errors.{ok}
use baara_next.Core.Types.{Key, Text}
use baara_next.Core.Json.{IsFaithful}
use baara_next.Core.Conversation.{
  InboundCommand, command, hitl_response, pause, resume, info, type_of,
}
use baara_next.Executor.MessageBus.{Bus, PendingCommand, read_pending_commands}
use baara_next.Executor.MessageBus.Mailbox.{Mail, acknowledge, is_settled_by, outstanding}
use baara_next.Executor.MessageBus.Refinement.{
  Represents, perform, perform-Represents, read_pending_commands_shown,
}
use baara_next.Executor.NativeSandbox.{Session, Host, push_log}
use baara_next.Executor.NativeSandbox.Commands.{obey, acknowledge_pending, receive, poll_commands}

-- The prompts among the commands.
abbrev pub prompts_of : List PendingCommand → List Text
prompts_of [] = []
prompts_of (p ∷ ps) = elim p.command [ command prompt ↦ prompt ∷ prompts_of ps | _ ↦ prompts_of ps ]

-- Whether the run is paused after the commands.
abbrev pub paused_after : Bool → List PendingCommand → Bool
paused_after b [] = b
paused_after b (p ∷ ps) = elim p.command [
  | pause ↦ paused_after true ps
  | resume ↦ paused_after false ps
  | _ ↦ paused_after b ps
]

abbrev ids_of : List PendingCommand → List Key
ids_of = map (λ (p : PendingCommand). p.id)

exists_in_later :
    (id x : Key) (ids : List Key)
    → exists_in (λ y. y == id) ids ≡ true
    → exists_in (λ y. y == id) (x ∷ ids) ≡ true
exists_in_later id x ids h = ground arith

-- No id of a command to the execution is left.
outstanding-settled :
    (k : Key) (ids : List Key) (mail : Mail)
    → ((id : Key)
        → exists_in (λ x. x == id) (ids_of (outstanding k mail)) ≡ true
        → exists_in (λ x. x == id) ids ≡ true)
    → outstanding k (keep (λ p. not (is_settled_by ids p)) mail) ≡ []
outstanding-settled k ids [] h = refl
outstanding-settled k ids (p ∷ mail) h = elim (Bool-cases (p.execution_id == k)) [
  | inl mine ↦
      let settled : is_settled_by ids p ≡ true =
        h p.pending.id (rw (mine, ==_refl p.pending.id) refl) in
      rw settled
        (outstanding-settled k ids mail (λ id q. h id (rw mine (exists_in_later id _ _ q))))
  | inr other ↦
      let rest = outstanding-settled k ids mail (λ id q. h id (rw other q)) in
      elim (Bool-cases (is_settled_by ids p)) [
        | inl settled ↦ rw settled rest
        | inr kept ↦ rw (kept, other) rest
      ]
]

prompts_step :
    (p : PendingCommand) (c : InboundCommand) (ps : List PendingCommand) (s : Session)
    (all : List Text)
    → p.command ≡ c
    → all ≡ (obey c s).pending_prompts ++ prompts_of ps
    → all ≡ s.pending_prompts ++ prompts_of (p ∷ ps)
prompts_step p (command prompt) ps s all e h =
    rw (e, ← append_assoc s.pending_prompts (prompt ∷ []) (prompts_of ps)) h
prompts_step p (hitl_response response) ps s all e h = rw e h
prompts_step p pause ps s all e h = rw e h
prompts_step p resume ps s all e h = rw e h

paused_step :
    (p : PendingCommand) (c : InboundCommand) (ps : List PendingCommand) (s : Session) (b : Bool)
    → p.command ≡ c
    → b ≡ paused_after (obey c s).paused ps
    → b ≡ paused_after s.paused (p ∷ ps)
paused_step p (command prompt) ps s b e h = rw e h
paused_step p (hitl_response response) ps s b e h = rw e h
paused_step p pause ps s b e h = rw e h
paused_step p resume ps s b e h = rw e h

module _ (host : Host) (k : Key) where
  receive_lem :
      (ps : List PendingCommand) (now : ℕ) (s : Session)
      → ((receive host k ps now s).pending_prompts ≡ s.pending_prompts ++ prompts_of ps)
        × ((receive host k ps now s).paused ≡ paused_after s.paused ps)
  receive_lem [] now s = (rw (append-nil s.pending_prompts) refl, refl)
  receive_lem (p ∷ ps) now s =
      let line = codes "[command] received: " ++ host.key_text (type_of p.command) in
      let told = push_log info line now s in
      let rest = receive_lem ps now (obey p.command told) in
      (
        prompts_step p p.command ps told (receive host k (p ∷ ps) now s).pending_prompts refl
            rest.0,
        paused_step p p.command ps told (receive host k (p ∷ ps) now s).paused refl rest.1,
      )

  acknowledged_all :
      (m : ℕ) (bus : Bus) (mail : Mail)
      → IsFaithful host.formats.commands
      → Represents host.formats m bus mail
      → (waiting : List PendingCommand) → outstanding k mail ≡ waiting
      → read_pending_commands host.formats k (acknowledge_pending (ids_of waiting) bus) ≡ ok []
  unfolding perform
  acknowledged_all m bus mail faithful r [] e =
      rw (read_pending_commands_shown host.formats faithful k m bus mail r, e) refl
  acknowledged_all m bus mail faithful r (p ∷ ps) e =
      let f = host.formats in
      let ids = ids_of (p ∷ ps) in
      let after = acknowledge_pending ids bus in
      let r' =
        perform-Represents f faithful (acknowledge ids) m bus after mail (omega arith) r refl in
      let left =
        outstanding-settled k ids mail
          (λ id q. subst (λ w. exists_in (λ x. x == id) (ids_of w) ≡ true) e q) in
      rw (read_pending_commands_shown f faithful k m after _ r', left) refl

  -- Let the rows of the bus stand for the mail, and let written commands be read back. A poll returns;
  -- the prompts that wait for the execution join the pending ones in the order of sending, the last
  -- signal among its commands says whether it is paused, and nothing waits for it any more.
  pub poll_commands-outstanding :
      (now m : ℕ) (s : Session) (bus : Bus) (mail : Mail)
      → IsFaithful host.formats.commands
      → Represents host.formats m bus mail
      → s.bus ≡ some bus
      → (t : Session) × (after : Bus) × (poll_commands host k now s ≡ ok t)
        × (t.pending_prompts ≡ s.pending_prompts ++ prompts_of (outstanding k mail))
        × (t.paused ≡ paused_after s.paused (outstanding k mail))
        × (t.bus ≡ some after)
        × (read_pending_commands host.formats k after ≡ ok [])
  unfolding poll_commands
  poll_commands-outstanding now m s bus mail faithful r h =
      let f = host.formats in
      let waiting = outstanding k mail in
      let received = receive host k waiting now s in
      let lem = receive_lem waiting now s in
      let after = acknowledge_pending (ids_of waiting) bus in
      let read = read_pending_commands_shown f faithful k m bus mail r in
      (
        record received { bus = some after },
        after,
        rw (h, read) refl,
        lem.0,
        lem.1,
        refl,
        acknowledged_all m bus mail faithful r waiting refl,
      )
