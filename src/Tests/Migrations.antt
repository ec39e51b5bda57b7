-- ===== src/Tests/Migrations.antt =====
-- The runner of the migrations on an empty database.
use baara_next.Base.{◌≡◌, refl, arith, [], ◌∷◌, none, some, ℕ}
use baara_next.Core.Errors.{ok}
use baara_next.Store.Settings.{Setting}
use baara_next.Store.Migrations.{
  Database, Migration, run_migrations, current_version, apply_migration, set_version,
}
use baara_next.Store.Migrations.Idempotence.{IsCurrent, run_migrations-idempotent}

-- The first migration creates the settings.
abbrev first : Migration ℕ
first = record { version = 1; up = λ db. ok (record { settings = some []; tables = 1 }) }

abbrev second : Migration ℕ
second = record { version = 2; up = λ db. ok (record db { tables = 2 }) }

abbrev empty : Database ℕ
empty = record { settings = none; tables = 0 }

abbrev row : (at : ℕ) → Setting
row at = record { key = 20; value = 50 ∷ []; updated_at = at }

abbrev migrated : Database ℕ
migrated = record { settings = some (row 7 ∷ []); tables = 2 }

run_migrations-idempotent_example :
    IsCurrent (first ∷ second ∷ []) migrated
    × (run_migrations 9 (first ∷ second ∷ []) migrated ≡ (ok tt, migrated))
unfolding run_migrations current_version apply_migration set_version
run_migrations-idempotent_example =
    run_migrations-idempotent 0 7 9 (first ∷ second ∷ []) empty migrated
      ((omega arith, tt), omega arith, (tt, omega arith, tt)) refl refl
