-- ===== src/Core/Status/Graph.antt =====
-- The transitions of the state machine as a relation, and its ends.
use baara_next.Base.{◌≡◌, refl, ◌↔◌, true, [], arith}
use baara_next.Core.Status.{
  ExecutionStatus, created, queued, assigned, running, waiting_for_input, completed, failed,
  timed_out, cancelled, retry_scheduled, dead_lettered, is_terminal, allowed_transitions,
  can_transition,
}

-- The allowed changes of status, each with its name.
infix 40 ◌⟶◌ ◌⟶*◌
pub data ◌⟶◌ : ExecutionStatus → ExecutionStatus → Type 0 where
  enqueue : created ⟶ queued
  drop_created : created ⟶ cancelled
  claim : queued ⟶ assigned
  drop_queued : queued ⟶ cancelled
  expire_queued : queued ⟶ timed_out
  begin : assigned ⟶ running
  expire_assigned : assigned ⟶ timed_out
  finish : running ⟶ completed
  fail : running ⟶ failed
  expire_running : running ⟶ timed_out
  stop : running ⟶ cancelled
  ask : running ⟶ waiting_for_input
  answer : waiting_for_input ⟶ running
  drop_waiting : waiting_for_input ⟶ cancelled
  retry_failed : failed ⟶ retry_scheduled
  bury_failed : failed ⟶ dead_lettered
  retry_timed_out : timed_out ⟶ retry_scheduled
  bury_timed_out : timed_out ⟶ dead_lettered
  requeue : retry_scheduled ⟶ queued
  drop_retry : retry_scheduled ⟶ cancelled

pub data ◌⟶*◌ : ExecutionStatus → ExecutionStatus → Type 0 where
  here : {s : ExecutionStatus} → s ⟶* s
  then : {s t u : ExecutionStatus} → s ⟶ t → t ⟶* u → s ⟶* u

ruleset edges = (
  enqueue, drop_created, claim, drop_queued, expire_queued, begin, expire_assigned, finish, fail,
  expire_running, stop, ask, answer, drop_waiting, retry_failed, bury_failed, retry_timed_out,
  bury_timed_out, requeue, drop_retry,
)

pub ⟶*-trans : {s t u : ExecutionStatus} → s ⟶* t → t ⟶* u → s ⟶* u
⟶*-trans here r = r
⟶*-trans (then e p) r = then e (⟶*-trans p r)

pub can_transition→⟶ : (s t : ExecutionStatus) → can_transition s t ≡ true → s ⟶ t
unfolding can_transition
can_transition→⟶ s t h = grind (arith, edges)

not-terminal⟶ : {s t : ExecutionStatus} → s ⟶ t → is_terminal s ≡ true → ⊥
unfolding is_terminal
not-terminal⟶ enqueue h = cc
not-terminal⟶ _ h = cc

is_terminal_iff : (s : ExecutionStatus) → (is_terminal s ≡ true) ↔ (allowed_transitions s ≡ [])
unfolding is_terminal allowed_transitions
is_terminal_iff s = (λ h. ground arith, λ h. ground arith)

pub ⟶*-terminal : {s t : ExecutionStatus} → s ⟶* t → is_terminal s ≡ true → t ≡ s
⟶*-terminal here h = refl
⟶*-terminal (then e r) h = absurd (not-terminal⟶ e h)

-- A way along changes of status that the table lets through.
pub data Leads : ExecutionStatus → ExecutionStatus → Type 0 where
  there : {s : ExecutionStatus} → Leads s s
  via : {s t u : ExecutionStatus} → can_transition s t ≡ true → Leads t u → Leads s u

ends : (s : ExecutionStatus) → (t : ExecutionStatus) × Leads s t × (is_terminal t ≡ true)
unfolding is_terminal can_transition
ends created = (cancelled, via refl there, refl)
ends queued = (cancelled, via refl there, refl)
ends assigned = (completed, via {t = running} refl (via refl there), refl)
ends running = (completed, via refl there, refl)
ends waiting_for_input = (cancelled, via refl there, refl)
ends failed = (dead_lettered, via refl there, refl)
ends timed_out = (dead_lettered, via refl there, refl)
ends retry_scheduled = (cancelled, via refl there, refl)
ends s = (s, there, refl)

-- The list of terminal statuses and the table of transitions agree: a status is terminal exactly when
-- the table allows no change of it, and from every status changes that the table allows lead to a
-- terminal one.
pub terminal_reachable :
    (s : ExecutionStatus)
    → ((is_terminal s ≡ true) ↔ (allowed_transitions s ≡ []))
      × (t : ExecutionStatus) × Leads s t
      × (is_terminal t ≡ true)
terminal_reachable s = let (t, way, over) = ends s in (is_terminal_iff s, t, way, over)
