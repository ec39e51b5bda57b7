-- ===== src/Store/Migrations.antt =====
-- The runner of the migrations of packages/store/src/migrations.ts. What the SQL of a migration does
-- to the tables is a parameter; the runner only looks at the settings.
use baara_next.Base.{
  ℕ, suc, ◌+◌, ◌-◌, ◌*◌, List, [], ◌∷◌, Bool, true, false, ◌&&◌, Option, none, some, if◌then◌else◌,
  leb, trim_start, decimal,
}
use baara_next.Core.Errors.{Result, ok, err, or_err, constraint_failed, Error, ◌>>=◌}
use baara_next.Core.Types.{Key, Text}
use baara_next.Store.Settings.{Setting, get_setting, set_setting}
pub mod Versions
pub mod Idempotence

-- The settings table, once it is there, and the other tables.
pub record Database (A : Type 0) : Type 0 where
  pub settings : Option (List Setting)
  pub tables : A

pub record Migration (A : Type 0) : Type 0 where
  pub version : ℕ
  pub up : Database A → Result (Database A)

abbrev pub version_key : Key
version_key = 20

abbrev pub is_digit : ℕ → Bool
is_digit c = leb 48 c && leb c 57

-- The digits in front, after those that make the number `n`.
abbrev pub more_digits : ℕ → Text → ℕ
more_digits n [] = n
more_digits n (c ∷ cs) = if is_digit c then more_digits (n * 10 + (c - 48)) cs else n

abbrev pub leading_number : Text → Option ℕ
leading_number [] = none
leading_number (c ∷ cs) = if is_digit c then some (more_digits (c - 48) cs) else none

-- `parseInt(text, 10)` without a sign; `none` is `NaN`.
abbrev pub parse_int : Text → Option ℕ
parse_int text = leading_number (trim_start text)

module _ {A : Type 0} where
  -- `currentVersion`; a missing table or row is version 0.
  unfoldable pub current_version : Database A → Option ℕ
  current_version db = elim db.settings [
    | none ↦ some 0
    | some rows ↦ elim (get_setting version_key rows) [
      | none ↦ some 0
      | some value ↦ parse_int value
    ]
  ]

  -- `setVersion`
  unfoldable pub set_version : (version now : ℕ) → Database A → Result (Database A)
  set_version version now db = do
    rows ← or_err db.settings constraint_failed
    ok (record db { settings = some (set_setting version_key (decimal version) now rows) })

  -- `migration.version <= current`, which is false for `NaN`.
  abbrev pub is_applied : Option ℕ → Migration A → Bool
  is_applied none m = false
  is_applied (some current) m = leb m.version current

  -- One transaction.
  unfoldable pub apply_migration : (now : ℕ) → Migration A → Database A → Result (Database A)
  apply_migration now m db = do changed ← m.up db; set_version m.version now changed

  -- The loop, with what the database holds when a migration fails: its own transaction is undone.
  abbrev pub run_pending :
      (current : Option ℕ) (now : ℕ)
      → List (Migration A)
      → Database A
      → Result (Unit {0}) × Database A
  run_pending current now [] db = (ok tt, db)
  run_pending current now (m ∷ ms) db =
      if is_applied current m
      then run_pending current now ms db
      else elim (apply_migration now m db) [
        | ok after ↦ run_pending current now ms after
        | err e ↦ (err e, db)
      ]

  -- `runMigrations`
  unfoldable pub run_migrations :
      (now : ℕ) → List (Migration A) → Database A → Result (Unit {0}) × Database A
  run_migrations now migrations db = run_pending (current_version db) now migrations db
