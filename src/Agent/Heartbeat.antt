-- ===== src/Agent/Heartbeat.antt =====
-- `createHeartbeat` of packages/agent/src/checkpoint.ts: a handle over an interval timer.
use baara_next.Base.{ℕ, suc, List, [], ◌∷◌, ◌++◌, Bool, not, Option, none, some, ◌==◌, keep}
pub mod Timers

-- The timer of the handle, the intervals that run on the host, and the number of the next one.
pub record Heartbeat : Type 0 where
  pub timer : Option ℕ
  pub intervals : List ℕ
  pub drawn : ℕ

-- `setInterval` and `clearInterval`
abbrev pub set_interval : Heartbeat → Heartbeat
set_interval h = record {
  timer = some h.drawn;
  intervals = h.intervals ++ h.drawn ∷ [];
  drawn = suc h.drawn;
}

-- `start`
unfoldable pub start_heartbeat : Heartbeat → Heartbeat
start_heartbeat h = elim h.timer [ some t ↦ h | none ↦ set_interval h ]

-- `stop`
unfoldable pub stop_heartbeat : Heartbeat → Heartbeat
stop_heartbeat h = elim h.timer [
  | some t ↦ record h { timer = none; intervals = keep (λ x. not (x == t)) h.intervals }
  | none ↦ h
]
