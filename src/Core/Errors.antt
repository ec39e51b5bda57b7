-- ===== src/Core/Errors.antt =====
-- The errors of packages/core/src/errors.ts that the modelled code throws, and the result of a
-- call that may throw. `constraint_failed` is the exception of the database driver, `other` an
-- `Error` that the code builds in place.
use baara_next.Base.{ℕ, Option, none, some, Bool, true, false, ◌≡◌, refl, ◌⊎◌, inl, inr}
use baara_next.Core.Status.{ExecutionStatus}

pub data Error : Type 0 where
  task_not_found execution_not_found input_request_not_found thread_not_found : ℕ → Error
  template_not_found project_not_found : ℕ → Error
  invalid_state_transition : ExecutionStatus → ExecutionStatus → ℕ → Error
  duplicate_entity : ℕ → Error
  constraint_failed other : Error

pub data Result {ℓ} (A : Type ℓ) : Type ℓ where
  ok : A → Result A
  err : Error → Result A

-- `if (found === null) throw error`
abbrev pub or_err {ℓ} : {A : Type ℓ} → Option A → Error → Result A
or_err none e = err e
or_err (some a) e = ok a

abbrev pub guard : Bool → Error → Result (Unit {0})
guard true e = ok tt
guard false e = err e

abbrev pub is_ok {ℓ} : {A : Type ℓ} → Result A → Bool
is_ok (ok a) = true
is_ok (err e) = false

-- A call returns or throws.
pub answers {ℓ} : {A : Type ℓ} (r : Result A) → ((a : A) × (r ≡ ok a)) ⊎ ((e : Error) × (r ≡ err e))
answers (ok a) = inl (a, refl)
answers (err e) = inr (e, refl)

-- `m >> n` throws what `m` throws, and goes on with `n` otherwise.
infixl 5 ◌>>◌
abbrev pub ◌>>◌ {ℓ} : {B : Type ℓ} → Result (Unit {0}) → Result B → Result B
ok done >> n = n
err thrown >> n = err thrown

module _ {ℓ κ} {A : Type ℓ} {B : Type κ} where
  infixl 5 ◌>>=◌
  abbrev pub ◌>>=◌ : Result A → (A → Result B) → Result B
  ok value >>= next = next value
  err thrown >>= next = err thrown
