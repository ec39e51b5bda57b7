-- ===== src/Orchestrator/Outcomes/Runs.antt =====
-- What a handler of packages/orchestrator returns, and the state in which it leaves the world.
use baara_next.Base.{◌≡◌, refl, ◌∙◌, Bool, true, false, Option, some}
use baara_next.Core.Errors.{Error, Result, ok, err}
use baara_next.Store.{Store}
use baara_next.Orchestrator.World.{
  World, Action, pure, gets, throw, need, or_throw, when, swallow, and_then, ◌>>=◌, stored,
  on_store,
}

-- The action returns, and what it returns and leaves has the property.
pub record Runs {A : Type 0} (m : Action A) (w : World) (Q : A → World → Type 0) : Type 0 where
  pub value : A
  pub after : World
  pub returns : m w ≡ (ok value, after)
  pub holds : Q value after

-- The action keeps a property of the world, whether it returns or throws.
pub record Saves (I : World → Type 0) {A : Type 0} (m : Action A) : Type 0 where
  pub across : (w : World) → I w → I (m w).1

pub bind_ok :
    {A B : Type 0} (m : Action A) (f : A → Action B) (w v : World) (a : A)
    → m w ≡ (ok a, v)
    → (m >>= f) w ≡ f a v
unfolding ◌>>=◌ and_then
bind_ok m f w v a h = rw h refl

pub bind_err :
    {A B : Type 0} (m : Action A) (f : A → Action B) (w v : World) (e : Error)
    → m w ≡ (err e, v)
    → (m >>= f) w ≡ (err e, v)
unfolding ◌>>=◌ and_then throw
bind_err m f w v e h = rw h refl

module _ {A B : Type 0} {w : World} where
  pub bind-Runs :
      {Q : A → World → Type 0} {R : B → World → Type 0} {m : Action A} {f : A → Action B}
      → Runs m w Q
      → ((a : A) (v : World) → Q a v → Runs (f a) v R)
      → Runs (m >>= f) w R
  bind-Runs {m} {f} r k =
      let next = k r.value r.after r.holds in
      record {
        value = next.value;
        after = next.after;
        returns = bind_ok m f w r.after r.value r.returns ∙ next.returns;
        holds = next.holds;
      }

  -- A first step whose value and world are known.
  pub step-Runs :
      {R : B → World → Type 0} (m : Action A) (f : A → Action B) {v : World} {a : A}
      → m w ≡ (ok a, v)
      → Runs (f a) v R
      → Runs (m >>= f) w R
  step-Runs m f {v} {a} h r = record {
    value = r.value;
    after = r.after;
    returns = bind_ok m f w v a h ∙ r.returns;
    holds = r.holds;
  }

module _ {A : Type 0} {w : World} {Q : A → World → Type 0} where
  -- A property that follows.
  pub weaken-Runs :
      {R : A → World → Type 0} {m : Action A}
      → Runs m w Q
      → ((a : A) (v : World) → Q a v → R a v)
      → Runs m w R
  weaken-Runs r f = record {
    value = r.value;
    after = r.after;
    returns = r.returns;
    holds = f r.value r.after r.holds;
  }

  pub pure-Runs : (a : A) → Q a w → Runs (pure a) w Q
  unfolding pure
  pure-Runs a h = record { value = a; after = w; returns = refl; holds = h }

  pub gets-Runs : (f : World → A) → Q (f w) w → Runs (gets f) w Q
  unfolding gets
  gets-Runs f h = record { value = f w; after = w; returns = refl; holds = h }

  pub need-Runs :
      (f : Store → Option A) (e : Error) (a : A) → f w.store ≡ some a → Q a w → Runs (need f e) w Q
  unfolding need or_throw pure
  need-Runs f e a found h = record { value = a; after = w; returns = rw found refl; holds = h }

module _ {w : World} {Q : Unit {0} → World → Type 0} where
  pub store-Runs :
      (f : Store → Result Store) (s : Store)
      → f w.store ≡ ok s
      → Q tt (record w { store = s })
      → Runs (on_store f) w Q
  unfolding on_store stored
  store-Runs f s e h = record {
    value = tt;
    after = record w { store = s };
    returns = rw e refl;
    holds = h;
  }

  pub skip-Runs : (m : Action (Unit {0})) (b : Bool) → b ≡ false → Q tt w → Runs (when b m) w Q
  unfolding when pure
  skip-Runs m b e h = record { value = tt; after = w; returns = rw e refl; holds = h }

  pub when-Runs : (m : Action (Unit {0})) (b : Bool) → b ≡ true → Runs m w Q → Runs (when b m) w Q
  unfolding when
  when-Runs m b e h = record {
    value = h.value;
    after = h.after;
    returns = rw e h.returns;
    holds = h.holds;
  }

  pub swallow-Runs : (m : Action (Unit {0})) → Q tt (m w).1 → Runs (swallow m) w Q
  unfolding swallow
  swallow-Runs m h = record { value = tt; after = (m w).1; returns = refl; holds = h }

stored_saves :
    (I : World → Type 0) (r : Result Store) (w : World)
    → ((s : Store) → r ≡ ok s → I (record w { store = s }))
    → I w
    → I (stored r w).1
unfolding stored
stored_saves I (ok s) w k h = k s refl
stored_saves I (err e) w k h = h

module _ {I : World → Type 0} where
  and_then_saves :
      {A B : Type 0} (r : Result A) (f : A → Action B) (w : World)
      → ((a : A) → Saves I (f a))
      → I w
      → I (and_then r f w).1
  unfolding and_then throw
  and_then_saves (ok a) f w k h = (k a).across w h
  and_then_saves (err e) f w k h = h

  pub bind-Saves :
      {A B : Type 0} {m : Action A} {f : A → Action B}
      → Saves I m
      → ((a : A) → Saves I (f a))
      → Saves I (m >>= f)
  unfolding ◌>>=◌
  bind-Saves {m} {f} s k = record {
    across = λ w h. and_then_saves (m w).0 f (m w).1 k (s.across w h);
  }

  pub pure-Saves : {A : Type 0} (a : A) → Saves I (pure a)
  unfolding pure
  pure-Saves a = record { across = λ w h. h }

  pub gets-Saves : {A : Type 0} (f : World → A) → Saves I (gets f)
  unfolding gets
  gets-Saves f = record { across = λ w h. h }

  pub store-Saves :
      (f : Store → Result Store)
      → ((w : World) (s : Store) → I w → f w.store ≡ ok s → I (record w { store = s }))
      → Saves I (on_store f)
  unfolding on_store
  store-Saves f k = record { across = λ w h. stored_saves I (f w.store) w (λ s. k w s h) h }
