-- ===== src/Store/Migrations/Idempotence.antt =====
-- What a second run of packages/store/src/migrations.ts finds.
use baara_next.Base.{
  ℕ, List, [], ◌∷◌, true, some, ◌≤◌, ◌<◌, ◌≡◌, refl, arith, All, All-imp, leb, Bool-cases, inl, inr,
}
use baara_next.Core.Errors.{ok, answers}
use baara_next.Store.Migrations.{
  Database, Migration, current_version, apply_migration, run_pending, run_migrations,
}
use baara_next.Store.Migrations.Versions.{bound, current_version-set_version}

module _ {A : Type 0} where
  -- The versions of the list go up, and are small enough to be written in digits.
  abbrev pub IsIncreasing : List (Migration A) → Type 0
  IsIncreasing [] = Unit
  IsIncreasing (m ∷ ms) =
      All (λ (x : Migration A). m.version < x.version) ms × (m.version < bound 20) × IsIncreasing ms

  -- All of the migrations are in the version of the database.
  abbrev pub IsCurrent : List (Migration A) → Database A → Type 0
  IsCurrent ms db =
      (v : ℕ) × (current_version db ≡ some v) × All (λ (m : Migration A). m.version ≤ v) ms

  apply_migration-version :
      (now : ℕ) (m : Migration A) (db after : Database A)
      → m.version < bound 20
      → apply_migration now m db ≡ ok after
      → current_version after ≡ some m.version
  unfolding apply_migration
  apply_migration-version now m db after l h = elim (answers (m.up db)) [
    | inl (changed, done) ↦ current_version-set_version m.version now changed after l (ground arith)
    | inr (e, thrown) ↦ ground arith
  ]

  -- After the loop, the version covers the migrations and the version before.
  run_pending-current :
      (c now : ℕ) (ms : List (Migration A)) (db after : Database A) (b : ℕ)
      → IsIncreasing ms
      → current_version db ≡ some b
      → c ≤ b
      → All (λ (m : Migration A). c < m.version → b ≤ m.version) ms
      → run_pending (some c) now ms db ≡ (ok tt, after)
      → (v : ℕ) × (current_version after ≡ some v)
        × (b ≤ v)
        × All (λ (m : Migration A). m.version ≤ v) ms
  run_pending-current c now [] db after b inc at le up h =
      let same : db ≡ after = ground arith in (b, rw (← same) at, omega arith, tt)
  run_pending-current c now (m ∷ ms) db after b inc at le up h =
      elim (Bool-cases (leb m.version c)) [
        | inl applied ↦
            let rest : run_pending (some c) now ms db ≡ (ok tt, after) = ground arith in
            let (v, at_v, more, covered) =
              run_pending-current c now ms db after b inc.2 at le up.1 rest in
            (v, at_v, more, (ground arith, covered))
        | inr pending ↦ elim (answers (apply_migration now m db)) [
          | inl (next, done) ↦
              let version = apply_migration-version now m db next inc.1 done in
              let over : c < m.version = ground arith in
              let rest : run_pending (some c) now ms next ≡ (ok tt, after) = ground arith in
              let (v, at_v, more, covered) =
                run_pending-current c now ms next after m.version inc.2 version (omega arith)
                  (All-imp _ _ ms (λ x l k. omega arith) inc.0) rest in
              let before : b ≤ m.version = up.0 over in
              (v, at_v, omega arith, (omega arith, covered))
          | inr (e, thrown) ↦ ground arith
        ]
      ]

  run_pending-nothing :
      (v now : ℕ) (ms : List (Migration A)) (db : Database A)
      → All (λ (m : Migration A). m.version ≤ v) ms
      → run_pending (some v) now ms db ≡ (ok tt, db)
  run_pending-nothing v now [] db h = refl
  run_pending-nothing v now (m ∷ ms) db h =
      let applied : leb m.version v ≡ true = ground arith in
      rw applied (run_pending-nothing v now ms db h.1)

  later_than :
      (c : ℕ) (ms : List (Migration A))
      → All (λ (m : Migration A). c < m.version → c ≤ m.version) ms
  later_than c [] = tt
  later_than c (m ∷ ms) = (λ h. omega arith, later_than c ms)

  -- Let the versions of the migrations go up and be less than 10^21, and let the version of the
  -- database be readable. After a run that returns, the database is at a version that covers every
  -- migration, and a second run returns and changes nothing.
  pub run_migrations-idempotent :
      (c first second : ℕ) (ms : List (Migration A)) (db after : Database A)
      → IsIncreasing ms
      → current_version db ≡ some c
      → run_migrations first ms db ≡ (ok tt, after)
      → IsCurrent ms after × (run_migrations second ms after ≡ (ok tt, after))
  unfolding run_migrations
  run_migrations-idempotent c first second ms db after inc at h =
      let ran : run_pending (some c) first ms db ≡ (ok tt, after) = rw (← at) h in
      let (v, at_v, more, covered) =
        run_pending-current c first ms db after c inc at (omega arith) (later_than c ms) ran in
      ((v, at_v, covered), rw at_v (run_pending-nothing v second ms after covered))
