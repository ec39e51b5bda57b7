-- ===== src/Agent/TurnManager.antt =====
-- `TurnManager` of packages/agent/src/turn-manager.ts.
use baara_next.Base.{
  ℕ, suc, List, [], ◌∷◌, ◌++◌, Bool, true, false, Option, none, some, if◌then◌else◌, leb, codes,
  decimal,
}
use baara_next.Core.Types.{Key, Text}
pub mod Limits

pub data TurnAction : Type 0 where
  continue request_input terminate : TurnAction

pub record TurnDecision : Type 0 where
  pub action : TurnAction
  pub reason : Option Text

-- `heartbeats` holds the turn counts sent to the transport; a heartbeat that fails is dropped.
pub record TurnManager : Type 0 where
  pub max_turns_soft : ℕ
  pub max_turns_hard : ℕ
  pub current_turn : ℕ
  pub turn_incremented_this_cycle : Bool
  pub heartbeats : List ℕ

abbrev pub new_turn_manager : (max_turns_soft max_turns_hard : ℕ) → TurnManager
new_turn_manager soft hard = record {
  max_turns_soft = soft;
  max_turns_hard = hard;
  current_turn = 0;
  turn_incremented_this_cycle = false;
  heartbeats = [];
}

abbrev pub hard_reason : ℕ → Text
hard_reason limit = codes "Hard turn limit reached (" ++ decimal limit ++ codes ")"

abbrev pub soft_reason : ℕ → Text
soft_reason limit =
    codes "Soft turn limit reached ("
    ++ decimal limit
    ++ codes "); awaiting operator approval to continue"

abbrev pub decide : TurnManager → TurnDecision
decide m =
    if leb m.max_turns_hard m.current_turn
    then record { action = terminate; reason = some (hard_reason m.max_turns_hard) }
    else if leb m.max_turns_soft m.current_turn
    then record { action = request_input; reason = some (soft_reason m.max_turns_soft) }
    else record { action = continue; reason = none }

-- `beforeTurn`
unfoldable pub before_turn : TurnManager → TurnDecision × TurnManager
before_turn m =
    let turn = suc m.current_turn in
    let next = record m {
      current_turn = turn;
      turn_incremented_this_cycle = true;
      heartbeats = m.heartbeats ++ turn ∷ [];
    } in
    (decide next, next)

-- `recordTurn`
unfoldable pub record_turn : TurnManager → TurnManager
record_turn m =
    let counted =
      if m.turn_incremented_this_cycle then m else record m { current_turn = suc m.current_turn } in
    record counted { turn_incremented_this_cycle = false }
