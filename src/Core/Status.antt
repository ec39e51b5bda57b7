-- ===== src/Core/Status.antt =====
-- The execution state machine: packages/core/src/state-machine.ts and `ExecutionStatus` of
-- packages/core/src/types.ts. A `Map` is the list of its entries.
pub mod Graph
use baara_next.Base.{
  ◌≡◌, refl, Bool, Option, none, some, List, [], ◌∷◌, ◌==◌, ℕ, if◌then◌else◌, arith, get_or,
  exists_in,
}

pub data ExecutionStatus : Type 0 where
  created queued assigned running waiting_for_input completed failed timed_out cancelled
        retry_scheduled dead_lettered :
      ExecutionStatus

-- The place of a status in the union type; two statuses are the same string if they have one place.
abbrev pub ordinal : ExecutionStatus → ℕ
ordinal created = 0
ordinal queued = 1
ordinal assigned = 2
ordinal running = 3
ordinal waiting_for_input = 4
ordinal completed = 5
ordinal failed = 6
ordinal timed_out = 7
ordinal cancelled = 8
ordinal retry_scheduled = 9
ordinal dead_lettered = 10

abbrev pub same_status : ExecutionStatus → ExecutionStatus → Bool
same_status s t = ordinal s == ordinal t

abbrev pub valid_transitions : List (ExecutionStatus × List ExecutionStatus)
valid_transitions =
    (created, queued ∷ cancelled ∷ [])
    ∷ (queued, assigned ∷ cancelled ∷ timed_out ∷ [])
    ∷ (assigned, running ∷ timed_out ∷ [])
    ∷ (running, completed ∷ failed ∷ timed_out ∷ cancelled ∷ waiting_for_input ∷ [])
    ∷ (waiting_for_input, running ∷ cancelled ∷ [])
    ∷ (failed, retry_scheduled ∷ dead_lettered ∷ [])
    ∷ (timed_out, retry_scheduled ∷ dead_lettered ∷ [])
    ∷ (retry_scheduled, queued ∷ cancelled ∷ [])
    ∷ []

abbrev terminal_statuses : List ExecutionStatus
terminal_statuses = completed ∷ cancelled ∷ dead_lettered ∷ []

-- `Map.get`
abbrev entry_for :
    ExecutionStatus → List (ExecutionStatus × List ExecutionStatus) → Option (List ExecutionStatus)
entry_for s [] = none
entry_for s ((t, allowed) ∷ rest) = if same_status t s then some allowed else entry_for s rest

-- `includes` and `Set.has`
abbrev includes : List ExecutionStatus → ExecutionStatus → Bool
includes statuses s = exists_in (same_status s) statuses

unfoldable pub is_terminal : ExecutionStatus → Bool
is_terminal s = includes terminal_statuses s

unfoldable pub allowed_transitions : ExecutionStatus → List ExecutionStatus
allowed_transitions from = get_or (entry_for from valid_transitions) []

-- Whether `validateTransition` returns; it throws `InvalidStateTransitionError` otherwise.
unfoldable pub can_transition : ExecutionStatus → ExecutionStatus → Bool
can_transition from to = elim (entry_for from valid_transitions) [
  | none ↦ Bool.false
  | some allowed ↦ includes allowed to
]

pub same_status→≡ : (s t : ExecutionStatus) → same_status s t ≡ Bool.true → s ≡ t
same_status→≡ s t h = ground arith

pub same_status_refl : (s : ExecutionStatus) → same_status s s ≡ Bool.true
same_status_refl s = ground arith
