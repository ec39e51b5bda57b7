-- ===== src/Agent/Heartbeat/Timers.antt =====
-- The timers of packages/agent/src/checkpoint.ts.
use baara_next.Base.{
  ℕ, List, [], ◌∷◌, Option, none, some, ◌≡◌, refl, ap, ◌∙◌, ==_refl, Option-cases, inl, inr,
}
use baara_next.Agent.Heartbeat.{Heartbeat, start_heartbeat, stop_heartbeat}

pub data Switch : Type 0 where
  start stop : Switch

abbrev pub flip : Switch → Heartbeat → Heartbeat
flip start = start_heartbeat
flip stop = stop_heartbeat

abbrev pub flip_all : List Switch → Heartbeat → Heartbeat
flip_all [] h = h
flip_all (s ∷ ss) h = flip_all ss (flip s h)

-- The intervals of a handle with that timer.
abbrev pub intervals_of : Option ℕ → List ℕ
intervals_of none = []
intervals_of (some t) = t ∷ []

flip-intervals :
    (s : Switch) (h : Heartbeat)
    → h.intervals ≡ intervals_of h.timer
    → (flip s h).intervals ≡ intervals_of (flip s h).timer
unfolding start_heartbeat stop_heartbeat
flip-intervals start h e = elim (Option-cases h.timer) [
  | inl idle ↦
      let none_left : h.intervals ≡ [] = e ∙ ap intervals_of idle in
      rw (start_heartbeat, idle, none_left) refl
  | inr (t, busy) ↦ rw (start_heartbeat, busy) e
]
flip-intervals stop h e = elim (Option-cases h.timer) [
  | inl idle ↦ rw (stop_heartbeat, idle) e
  | inr (t, busy) ↦
      let one : h.intervals ≡ t ∷ [] = e ∙ ap intervals_of busy in
      rw (stop_heartbeat, busy, one, ==_refl t) refl
]

flip_all-kept :
    (ss : List Switch) (h : Heartbeat)
    → h.intervals ≡ intervals_of h.timer
    → (flip_all ss h).intervals ≡ intervals_of (flip_all ss h).timer
flip_all-kept [] h e = e
flip_all-kept (s ∷ ss) h e = flip_all-kept ss (flip s h) (flip-intervals s h e)

stopped : (h : Heartbeat) → h.intervals ≡ intervals_of h.timer → (stop_heartbeat h).intervals ≡ []
unfolding stop_heartbeat
stopped h e = elim (Option-cases h.timer) [
  | inl idle ↦ rw (stop_heartbeat, idle) (e ∙ ap intervals_of idle)
  | inr (t, busy) ↦
      let one : h.intervals ≡ t ∷ [] = e ∙ ap intervals_of busy in
      rw (stop_heartbeat, busy, one, ==_refl t) refl
]

-- A handle without a timer, on a host without intervals.
abbrev pub idle_heartbeat : ℕ → Heartbeat
idle_heartbeat drawn = record { timer = none; intervals = []; drawn = drawn }

-- In whatever order a new handle is started and stopped, its timer is the only interval that runs,
-- and when it is then stopped none runs.
pub flip_all-intervals :
    (ss : List Switch) (drawn : ℕ)
    → ((flip_all ss (idle_heartbeat drawn)).intervals
        ≡ intervals_of (flip_all ss (idle_heartbeat drawn)).timer)
      × ((stop_heartbeat (flip_all ss (idle_heartbeat drawn))).intervals ≡ [])
flip_all-intervals ss drawn =
    let kept = flip_all-kept ss (idle_heartbeat drawn) refl in
    (kept, stopped (flip_all ss (idle_heartbeat drawn)) kept)
