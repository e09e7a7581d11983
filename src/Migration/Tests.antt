-- ===== src/Migration/Tests.antt =====
-- apps/web/store/store-migration.ts: the results at concrete chains.
use soroban_dev_console.Shared.{ℕ, ◌+◌, ◌*◌, ◌≡◌, ◌≢◌, refl, some, [], ◌∷◌, arith}
use soroban_dev_console.Migration.{
  MigrationStep, built, gap, migrated, endless, no_step, insert_step, sorted, gap_after, first_gap,
  first_duplicate, build_migrations, loop, run_migrations,
}
use soroban_dev_console.Migration.Chains.{run_migrations-in_order}
use soroban_dev_console.Migration.Ends.{run_migrations-ends}

abbrev doubled : MigrationStep ℕ
doubled = record { from_version = 0; to_version = 1; migrate = λ n. some (n * 2) }

abbrev raised : MigrationStep ℕ
raised = record { from_version = 1; to_version = 2; migrate = λ n. some (n + 3) }

abbrev squared : MigrationStep ℕ
squared = record { from_version = 2; to_version = 4; migrate = λ n. some (n * n) }

build_sorts :
    build_migrations (squared ∷ doubled ∷ raised ∷ []) ≡ built (doubled ∷ raised ∷ squared ∷ [])
unfolding build_migrations sorted insert_step first_gap gap_after first_duplicate
build_sorts = refl

build_gap : build_migrations (squared ∷ doubled ∷ []) ≡ gap 1 2
unfolding build_migrations sorted insert_step first_gap gap_after
build_gap = refl

run_stops : run_migrations 3 5 0 3 (doubled ∷ []) ≡ no_step 1 3
unfolding run_migrations loop
run_stops = refl

run_migrations-in_order_example :
    run_migrations 2 5 1 4 (doubled ∷ raised ∷ squared ∷ [])
    ≡ migrated (record { state = 64; migrated_from = 1; migrated_to = 4; steps = 2 })
run_migrations-in_order_example =
    run_migrations-in_order 2 (squared ∷ doubled ∷ raised ∷ []) (doubled ∷ []) (squared ∷ []) raised
      5 build_sorts (omega arith, (omega arith, (omega arith, tt))) (omega arith)

run_migrations-ends_example : run_migrations 4 5 0 4 (squared ∷ raised ∷ []) ≢ endless
run_migrations-ends_example =
    run_migrations-ends 4 (squared ∷ raised ∷ []) 0 4 5 (omega arith, (omega arith, tt))
      (omega arith)
