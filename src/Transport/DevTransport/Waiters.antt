-- ===== src/Transport/DevTransport/Waiters.antt =====
-- What a waiter of packages/transport/src/dev-transport.ts gets.
use baara_next.Base.{[], ◌∷◌, ◌++◌, true, false, ◌≡◌, refl, set_in, find-remove_self}
use baara_next.Executor.Registries.Lookup.{find-set_in_self}
use baara_next.Core.Types.{Key, Text}
use baara_next.Transport.DevTransport.{
  DevTransport, Waiter, answered, wait_for_input, deliver_input, expire_input, settle_waiter,
}

-- An answer reaches the latest waiter of its execution and settles its promise; a second answer finds
-- no waiter and changes nothing.
pub deliver_input-wait_for_input :
    (k : Key) (response again : Text) (t : DevTransport)
    → ((deliver_input k response (wait_for_input k t)).0 ≡ true)
      × ((deliver_input k response (wait_for_input k t)).1.settled
          ≡ t.settled ++ (t.issued, answered response) ∷ [])
      × (deliver_input k again (deliver_input k response (wait_for_input k t)).1
          ≡ (false, (deliver_input k response (wait_for_input k t)).1))
unfolding deliver_input wait_for_input
deliver_input-wait_for_input k response again t =
    let w : Waiter = record { execution_id = k; ticket = t.issued } in
    let there = find-set_in_self (λ (x : Waiter). x.execution_id) w t.pending_inputs in
    let gone =
      find-remove_self (λ (x : Waiter). x.execution_id) k
        (set_in (λ x. x.execution_id) w t.pending_inputs) in
    let delivered : deliver_input k response (wait_for_input k t)
        ≡ (true, settle_waiter w (answered response) (wait_for_input k t)) =
      rw (deliver_input, there) refl in
    (rw delivered refl, rw delivered refl, rw delivered (rw (deliver_input, gone) refl))

-- When a second waiter takes the place of a first one, the timeout of the first drops the entry of the
-- second: an answer then finds no waiter, and the second can only time out.
pub deliver_input-expire_input :
    (k : Key) (response : Text) (t : DevTransport)
    → (deliver_input k response (
        expire_input
          (record { execution_id = k; ticket = t.issued })
          (wait_for_input k (wait_for_input k t)))).0
      ≡ false
unfolding deliver_input expire_input
deliver_input-expire_input k response t =
    let gone =
      find-remove_self (λ (x : Waiter). x.execution_id) k
        (wait_for_input k (wait_for_input k t)).pending_inputs in
    rw (deliver_input, gone) refl
