-- ===== src/Transport/DevTransport.antt =====
-- The waiters of `DevTransport` of packages/transport/src/dev-transport.ts; its other methods are
-- those of the orchestrator.
use baara_next.Base.{
  ℕ, suc, List, [], ◌∷◌, ◌++◌, Bool, true, false, not, Option, none, some, if◌then◌else◌, ◌==◌,
  find, keep, exists_in, remove, map, set_in,
}
use baara_next.Core.Types.{Key, Text}
pub mod Waiters

-- A promise of `requestInput`, with the number of its timer.
pub record Waiter : Type 0 where
  pub execution_id : Key
  pub ticket : ℕ

pub data Settled : Type 0 where
  answered : Text → Settled
  cancelled : (reason : Text) → Settled
  expired : Settled

-- `pending_inputs` is the map, `timers` the timeouts that run, `settled` the promises that are over.
pub record DevTransport : Type 0 where
  pub pending_inputs : List Waiter
  pub timers : List Waiter
  pub settled : List (ℕ × Settled)
  pub issued : ℕ

abbrev pub waiter_of : Key → List Waiter → Option Waiter
waiter_of = find (λ w. w.execution_id)

-- `requestInput` after the orchestrator is told: a new waiter takes the place of an older one.
unfoldable pub wait_for_input : Key → DevTransport → DevTransport
wait_for_input k t =
    let w : Waiter = record { execution_id = k; ticket = t.issued } in
    record t {
      pending_inputs = set_in (λ x. x.execution_id) w t.pending_inputs;
      timers = t.timers ++ w ∷ [];
      issued = suc t.issued;
    }

-- `resolve` and `reject` of a waiter clear its timer.
abbrev pub settle_waiter : Waiter → Settled → DevTransport → DevTransport
settle_waiter w s t = record t {
  pending_inputs = remove (λ x. x.execution_id) w.execution_id t.pending_inputs;
  timers = remove (λ x. x.ticket) w.ticket t.timers;
  settled = t.settled ++ (w.ticket, s) ∷ [];
}

-- `provideInput`
unfoldable pub deliver_input : Key → Text → DevTransport → Bool × DevTransport
deliver_input k response t = elim (waiter_of k t.pending_inputs) [
  | none ↦ (false, t)
  | some w ↦ (true, settle_waiter w (answered response) t)
]

-- `cancelInput`
unfoldable pub cancel_input : Key → (reason : Text) → DevTransport → Bool × DevTransport
cancel_input k reason t = elim (waiter_of k t.pending_inputs) [
  | none ↦ (false, t)
  | some w ↦ (true, settle_waiter w (cancelled reason) t)
]

-- The timeout of a waiter: it drops the entry of its execution, whichever waiter that is now.
unfoldable pub expire_input : Waiter → DevTransport → DevTransport
expire_input w t = settle_waiter w expired t

-- `pendingInputExecutionIds`
abbrev pub pending_input_execution_ids : DevTransport → List Key
pending_input_execution_ids t = map (λ (w : Waiter). w.execution_id) t.pending_inputs
