-- ===== src/Agent/TurnManager/Limits.antt =====
-- The limits of packages/agent/src/turn-manager.ts over the turns of a run.
use baara_next.Base.{
  ℕ, suc, ◌+◌, ◌≤◌, ◌<◌, List, [], ◌∷◌, ◌++◌, ap, sym, ◌∙◌, false, ◌≡◌, refl, arith, inl, inr,
  length, leb, Bool-cases,
}
use mathlib.Core.List.{append_assoc, append-nil}
use native.Mathlib.Nat.{add-zero, add-suc, suc-add}
use baara_next.Agent.TurnManager.{
  TurnManager, new_turn_manager, TurnAction, continue, request_input, terminate, before_turn,
  record_turn, decide,
}

-- How a turn is run: between `beforeTurn` and `recordTurn`, or by a runtime that only records it.
pub data Turn : Type 0 where
  announced recorded : Turn

abbrev pub take_turn : Turn → TurnManager → TurnManager
take_turn announced m = record_turn (before_turn m).1
take_turn recorded m = record_turn m

abbrev pub take_turns : List Turn → TurnManager → TurnManager
take_turns [] m = m
take_turns (t ∷ ts) m = take_turns ts (take_turn t m)

-- What the limits ask for at a turn.
abbrev pub IsDue : (soft hard turn : ℕ) → TurnAction → Type 0
IsDue soft hard turn terminate = hard ≤ turn
IsDue soft hard turn request_input = (turn < hard) × (soft ≤ turn)
IsDue soft hard turn continue = (turn < hard) × (turn < soft)

-- Between two turns nothing is counted ahead.
record Between (soft hard turn : ℕ) (m : TurnManager) : Type 0 where
  same_soft : m.max_turns_soft ≡ soft
  same_hard : m.max_turns_hard ≡ hard
  counted : m.current_turn ≡ turn
  settled : m.turn_incremented_this_cycle ≡ false

take_turn-Between :
    (soft hard turn : ℕ) (t : Turn) (m : TurnManager)
    → Between soft hard turn m
    → Between soft hard (turn + 1) (take_turn t m)
unfolding before_turn record_turn
take_turn-Between soft hard turn announced m b = record {
  same_soft = b.same_soft;
  same_hard = b.same_hard;
  counted = omega (arith, b.counted);
  settled = refl;
}
take_turn-Between soft hard turn recorded m b = record {
  same_soft = rw b.settled b.same_soft;
  same_hard = rw b.settled b.same_hard;
  counted = rw b.settled (omega (arith, b.counted));
  settled = refl;
}

decide-IsDue :
    (soft hard turn : ℕ) (m : TurnManager)
    → m.max_turns_soft ≡ soft
    → m.max_turns_hard ≡ hard
    → m.current_turn ≡ turn
    → IsDue soft hard turn (decide m).action
decide-IsDue soft hard turn m s h c = elim (Bool-cases (leb m.max_turns_hard m.current_turn)) [
  | inl over ↦ rw over (ground arith)
  | inr under ↦ elim (Bool-cases (leb m.max_turns_soft m.current_turn)) [
    | inl ask ↦ rw (under, ask) (ground arith)
    | inr free ↦ rw (under, free) (ground arith)
  ]
]

suc_one : (n : ℕ) → suc n ≡ n + 1
suc_one n = omega arith

take_turns-Between :
    (soft hard turn : ℕ) (ts : List Turn) (m : TurnManager)
    → Between soft hard turn m
    → Between soft hard (turn + length ts) (take_turns ts m)
take_turns-Between soft hard turn [] m b = rw (add-zero turn) b
take_turns-Between soft hard turn (t ∷ ts) m b =
    rw (add-suc turn (length ts), ← suc-add turn (length ts), suc_one turn)
      (take_turns-Between soft hard (turn + 1) ts (take_turn t m)
        (take_turn-Between soft hard turn t m b))

-- The counts of the turns that are announced, where the turns before them are `turn`.
abbrev pub announced_counts : (turn : ℕ) → List Turn → List ℕ
announced_counts turn [] = []
announced_counts turn (announced ∷ ts) = (turn + 1) ∷ announced_counts (turn + 1) ts
announced_counts turn (recorded ∷ ts) = announced_counts (turn + 1) ts

take_turn-heartbeats :
    (soft hard turn : ℕ) (t : Turn) (m : TurnManager)
    → Between soft hard turn m
    → (take_turn t m).heartbeats ≡ m.heartbeats ++ announced_counts turn (t ∷ [])
unfolding before_turn record_turn
take_turn-heartbeats soft hard turn announced m b =
    let next : suc m.current_turn ≡ turn + 1 = omega (arith, b.counted) in
    ap (λ n. m.heartbeats ++ n ∷ []) next
take_turn-heartbeats soft hard turn recorded m b = rw b.settled (sym (append-nil m.heartbeats))

announced_counts-cons :
    (turn : ℕ) (t : Turn) (ts : List Turn)
    → announced_counts turn (t ∷ ts)
      ≡ announced_counts turn (t ∷ []) ++ announced_counts (turn + 1) ts
announced_counts-cons turn announced ts = refl
announced_counts-cons turn recorded ts = refl

take_turns-heartbeats :
    (soft hard turn : ℕ) (ts : List Turn) (m : TurnManager)
    → Between soft hard turn m
    → (take_turns ts m).heartbeats ≡ m.heartbeats ++ announced_counts turn ts
take_turns-heartbeats soft hard turn [] m b = sym (append-nil m.heartbeats)
take_turns-heartbeats soft hard turn (t ∷ ts) m b =
    let first = take_turn-heartbeats soft hard turn t m b in
    let rest =
      take_turns-heartbeats soft hard (turn + 1) ts (take_turn t m)
        (take_turn-Between soft hard turn t m b) in
    rest
    ∙ ap (λ l. l ++ announced_counts (turn + 1) ts) first
    ∙ append_assoc m.heartbeats (announced_counts turn (t ∷ [])) (announced_counts (turn + 1) ts)
    ∙ ap (λ l. m.heartbeats ++ l) (sym (announced_counts-cons turn t ts))

-- Whichever turns of a new manager are announced with `beforeTurn` or only recorded, each counts
-- once, and the heartbeats are the counts of the announced ones in their order. The next `beforeTurn`
-- counts one more and sends that count, and it asks to terminate from the hard limit on, for input
-- from the soft limit on below it, and to continue below both.
pub before_turn-IsDue :
    (soft hard : ℕ) (ts : List Turn)
    → ((take_turns ts (new_turn_manager soft hard)).current_turn ≡ length ts)
      × ((before_turn (take_turns ts (new_turn_manager soft hard))).1.current_turn ≡ length ts + 1)
      × ((before_turn (take_turns ts (new_turn_manager soft hard))).1.heartbeats
          ≡ announced_counts 0 ts ++ (length ts + 1) ∷ [])
      × IsDue soft hard
          (length ts + 1)
          (before_turn (take_turns ts (new_turn_manager soft hard))).0.action
unfolding before_turn
before_turn-IsDue soft hard ts =
    let m = new_turn_manager soft hard in
    let start : Between soft hard 0 m = record {
      same_soft = refl;
      same_hard = refl;
      counted = refl;
      settled = refl;
    } in
    let b = take_turns-Between soft hard 0 ts m start in
    let sent = take_turns-heartbeats soft hard 0 ts m start in
    let next : suc (take_turns ts m).current_turn ≡ length ts + 1 = omega (arith, b.counted) in
    (
      omega (arith, b.counted),
      next,
      rw (sent, next) refl,
      decide-IsDue soft hard (length ts + 1) (before_turn (take_turns ts m)).1 b.same_soft
          b.same_hard next,
    )
