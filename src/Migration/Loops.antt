-- ===== src/Migration/Loops.antt =====
-- apps/web/store/store-migration.ts: the rounds of the loop of `runMigrations`.
use soroban_dev_console.Shared.{ℕ, zero, suc, ◌+◌, ◌≤◌, ◌<◌, ◌≡◌, none, some, List, arith, lt→ltb}
use soroban_dev_console.Migration.{MigrationStep, migrated, step_failed, step_from, loop}

module _ {ℓ} {S : Type ℓ} where
  pub loop-done :
      (fuel : ℕ) (chain : List (MigrationStep S)) (origin target version n : ℕ) (state : S)
      → target ≤ version
      → loop fuel chain origin target version n state
        ≡ migrated
            (record { state = state; migrated_from = origin; migrated_to = version; steps = n })
  unfolding loop
  loop-done zero chain origin target version n state h = ground arith
  loop-done (suc fuel) chain origin target version n state h = ground arith

  pub loop-migrates :
      (fuel : ℕ) (chain : List (MigrationStep S)) (origin target n : ℕ) (s : MigrationStep S)
      (state next : S)
      → s.from_version < target
      → step_from s.from_version chain ≡ some s
      → s.migrate state ≡ some next
      → loop (suc fuel) chain origin target s.from_version n state
        ≡ loop fuel chain origin target s.to_version (n + 1) next
  unfolding loop
  loop-migrates fuel chain origin target n s state next h f m =
      rw (lt→ltb s.from_version target h, f, m)

  pub loop-throws :
      (fuel : ℕ) (chain : List (MigrationStep S)) (origin target n : ℕ) (s : MigrationStep S)
      (state : S)
      → s.from_version < target
      → step_from s.from_version chain ≡ some s
      → s.migrate state ≡ none
      → loop (suc fuel) chain origin target s.from_version n state
        ≡ step_failed s.from_version s.to_version
  unfolding loop
  loop-throws fuel chain origin target n s state h f m = rw (lt→ltb s.from_version target h, f, m)
