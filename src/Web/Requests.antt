-- ===== src/Web/Requests.antt =====
-- What the stores of packages/web/src/stores get from a request to the server.
use baara_next.Base.{Bool, true, false, Option}
use baara_next.Core.Types.{Text}

-- The promise of a request: its value, or the message of its error, `none` for a value that is no
-- error.
pub data Response (A : Type 0) : Type 0 where
  returned : A → Response A
  refused : (message : Option Text) → Response A

-- A store after an action, and whether the action throws.
pub record Outcome (S : Type 0) : Type 0 where
  pub state : S
  pub throws : Bool

abbrev pub settled : {S : Type 0} → S → Outcome S
settled s = record { state = s; throws = false }

abbrev pub rethrown : {S : Type 0} → S → Outcome S
rethrown s = record { state = s; throws = true }
