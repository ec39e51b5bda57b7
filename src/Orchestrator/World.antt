-- ===== src/Orchestrator/World.antt =====
-- The state that the handlers of packages/orchestrator share, and the effects in which they run.
-- A handler runs without interruption up to its end: none awaits anything but another handler or
-- the runtime. What was written before an exception stays written.
use baara_next.Base.{ℕ, suc, ◌/◌, List, Bool, Option, none, some, if◌then◌else◌}
use baara_next.Core.Status.{ExecutionStatus}
use baara_next.Core.Errors.{Error, Result, ok, err}
use baara_next.Core.Types.{Key, Text}
use baara_next.Store.{Store}

-- A `setTimeout` handle of `timerHandles`, with what its callback closes over.
pub record Timer : Type 0 where
  pub execution_id : Key
  pub fire_at : ℕ
  pub next_attempt : ℕ

-- A cron job of the scheduler's `jobs`.
pub record Job : Type 0 where
  pub task_id : Key
  pub cron_expression : Text

-- `drawn` counts the calls of `crypto.randomUUID` and of `Math.random`, `now` is the wall clock,
-- and `available` lists the `task-available` events, the newest first. `flushing` and `monitoring`
-- tell whether the interval of the queue manager and that of the health monitor run.
pub record World : Type 0 where
  pub store : Store
  pub timers : List Timer
  pub visibility_buffer : List (Key × ExecutionStatus)
  pub available : List Key
  pub flushing : Bool
  pub monitoring : Bool
  pub jobs : List Job
  pub drawn : ℕ
  pub now : ℕ

-- What the code takes from its platform: the n-th id of `crypto.randomUUID`, a number or the
-- string behind a key as text, a number of milliseconds as seconds with one decimal, and the n-th
-- draw of `Math.random`, in parts of `scale`; an exception as text, a checkpoint parsed and printed
-- again, which fails on a text that is no JSON, and whether croner takes a text as an expression, or
-- throws.
pub record Platform : Type 0 where
  pub uuid : ℕ → Key
  pub decimal : ℕ → Text
  pub tenths : ℕ → Text
  pub key_text : Key → Text
  pub scale : ℕ
  pub random : ℕ → ℕ
  pub error_text : Error → Text
  pub reencode : Text → Option Text
  pub is_cron : Text → Bool

abbrev pub Action : Type 0 → Type 0
Action A = World → Result A × World

module _ {A : Type 0} where
  unfoldable pub pure : A → Action A
  pure a w = (ok a, w)

  unfoldable pub throw : Error → Action A
  throw e w = (err e, w)

  unfoldable pub gets : (World → A) → Action A
  gets f w = (ok (f w), w)

  -- `if (found === null) throw error`
  unfoldable pub or_throw : Option A → Error → Action A
  unfolding throw pure
  or_throw none e = throw e
  or_throw (some a) e = pure a

module _ {A B : Type 0} where
  unfoldable pub and_then : Result A → (A → Action B) → Action B
  unfolding throw
  and_then (ok a) f = f a
  and_then (err e) f = throw e

  infixl 5 ◌>>=◌ ◌>>◌
  unfoldable pub ◌>>=◌ : Action A → (A → Action B) → Action B
  unfolding and_then
  m >>= f = λ w. and_then (m w).0 f (m w).1

  abbrev pub ◌>>◌ : Action A → Action B → Action B
  m >> n = m >>= λ _. n

abbrev pub done : Action (Unit {0})
done = pure tt

unfoldable pub when : Bool → Action (Unit {0}) → Action (Unit {0})
when b m = if b then m else done

-- A value that the store is asked for, and the error if it has none.
abbrev pub look : {A : Type 0} → (Store → A) → Action A
look f = gets (λ w. f w.store)

unfoldable pub need : {A : Type 0} → (Store → Option A) → Error → Action A
unfolding or_throw
need f e w = or_throw (f w.store) e w

-- `try { body } catch { … }` where the handler only logs.
unfoldable pub swallow : Action (Unit {0}) → Action (Unit {0})
swallow m w = (ok tt, (m w).1)

unfoldable pub stored : Result Store → World → Result (Unit {0}) × World
stored (ok s) w = (ok tt, record w { store = s })
stored (err e) w = (err e, w)

-- A statement of the store.
unfoldable pub on_store : (Store → Result Store) → Action (Unit {0})
unfolding stored
on_store f w = stored (f w.store) w

-- `datetime('now')`
abbrev pub seconds : World → ℕ
seconds w = w.now / 1000

-- `crypto.randomUUID()`
unfoldable pub random_uuid : Platform → Action Key
random_uuid p w = (ok (p.uuid w.drawn), record w { drawn = suc w.drawn })

-- `Math.random()`
unfoldable pub math_random : Platform → Action ℕ
math_random p w = (ok (p.random w.drawn), record w { drawn = suc w.drawn })

-- Names all that a handler computes with, for the `unfolding` lines of tests and proofs.
unfoldable pub effects : Unit {0}
unfolding ◌>>=◌ pure throw gets need swallow on_store when random_uuid math_random
effects = tt
