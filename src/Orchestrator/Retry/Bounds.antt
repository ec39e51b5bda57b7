-- ===== src/Orchestrator/Retry/Bounds.antt =====
-- The numbers of packages/orchestrator/src/retry.ts: the attempts and the delays.
use native.Mathlib.Nat.{
  div-mul-le_self, lt-mul-div-succ, le_of_mul-le-mul_right, lt_of_mul-lt-mul_right, mul-le-mul_left,
}
use baara_next.Base.{ℕ, suc, ◌+◌, ◌-◌, ◌*◌, ◌^◌, ◌≤◌, ◌<◌, ◌≡◌, refl, min, arith}
use baara_next.Orchestrator.Retry.{RetryConfig, base_delay, calculate_delay, default_retry_config}

doubled : (k : ℕ) → min (1000 * 2 ^ suc k) 60000 ≡ min (2 * min (1000 * 2 ^ k) 60000) 60000
doubled k = omega arith

-- The delay before the jitter, under the default configuration: it begins at one second, each
-- further attempt doubles it, and it is cut off at one minute.
pub base_delay-doubles :
    (a : ℕ)
    → (base_delay 1 default_retry_config ≡ 1000)
      × (base_delay (a + 2) default_retry_config
          ≡ min (2 * base_delay (a + 1) default_retry_config) 60000)
unfolding base_delay
base_delay-doubles a =
    let e : a + 2 - 1 ≡ suc a = omega arith in
    let f : a + 1 - 1 ≡ a = omega arith in (refl, rw (e, f) (doubled a))

base_delay-le : (a : ℕ) (c : RetryConfig) → base_delay a c ≤ c.max_delay
unfolding base_delay
base_delay-le a c = ground arith

module _ (attempt : ℕ) (c : RetryConfig) (scale random : ℕ) (small : random < scale) where
  above : 9 * base_delay attempt c < 10 * calculate_delay attempt c scale random + 5
  unfolding calculate_delay
  above =
      let b = base_delay attempt c in
      let n = 2 * (b * (9 * scale + 2 * random)) + 10 * scale in
      lt_of_mul-lt-mul_right (2 * scale)
        (omega (arith, lt-mul-div-succ n {b = 20 * scale} (omega arith)))

  below : 10 * calculate_delay attempt c scale random ≤ 11 * base_delay attempt c + 5
  unfolding calculate_delay
  below =
      let b = base_delay attempt c in
      let n = 2 * (b * (9 * scale + 2 * random)) + 10 * scale in
      let more : b * random ≤ b * scale = mul-le-mul_left b (omega arith) in
      le_of_mul-le-mul_right {k = 2 * scale} (omega (arith, div-mul-le_self n (20 * scale), more))
        (omega arith)

  -- The delay with its jitter lies within ten percent of the delay before it, up to the rounding to
  -- the next millisecond, and so is never more than 1.1 times the maximum, whatever is drawn.
  pub calculate_delay-near :
      (9 * base_delay attempt c < 10 * calculate_delay attempt c scale random + 5)
      × (10 * calculate_delay attempt c scale random ≤ 11 * base_delay attempt c + 5)
      × (10 * calculate_delay attempt c scale random ≤ 11 * c.max_delay + 5)
  calculate_delay-near = (above, below, omega (arith, below, base_delay-le attempt c))
