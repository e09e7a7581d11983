-- ===== src/Migration/Ends.antt =====
-- apps/web/store/store-migration.ts: when the loop of `runMigrations` ends.
use mathlib.Core.Path.{subst}
use soroban_dev_console.Shared.{
  ℕ, zero, suc, ◌+◌, ◌≤◌, ◌<◌, ◌≡◌, ◌≢◌, refl, sym, ◌∙◌, true, false, none, some, List, [], ◌∷◌,
  ◌==◌, arith, All, Bool-cases, Option-cases, inl, inr, ltb,
}
use soroban_dev_console.Migration.{
  MigrationStep, built, endless, insert_step, sorted, gap_after, first_gap, first_duplicate,
  build_migrations, step_from, loop, run_migrations,
}
use soroban_dev_console.Migration.Chains.{Advances}
use soroban_dev_console.Migration.Loops.{loop-migrates}

module _ {ℓ} {S : Type ℓ} where
  step_from-Advances :
      (v : ℕ) (steps : List (MigrationStep S)) (s : MigrationStep S)
      → All Advances steps
      → step_from v steps ≡ some s
      → (s.from_version ≡ v) × (v < s.to_version)
  step_from-Advances v [] s a e = ground arith
  step_from-Advances v (t ∷ ts) s (a, later) e = elim (Bool-cases (t.from_version == v)) [
    | inl same ↦
        let e' : t ≡ s = ground arith in
        let here : t.from_version ≡ v = ground arith in
        subst (λ u. (u.from_version ≡ v) × (v < u.to_version)) e' (here, omega (arith, a))
    | inr other ↦ step_from-Advances v ts s later (ground arith)
  ]

  loop-ends :
      (fuel : ℕ) (steps : List (MigrationStep S)) (origin target version n : ℕ) (state : S)
      → All Advances steps
      → target ≤ version + fuel
      → loop fuel steps origin target version n state ≢ endless
  unfolding loop
  loop-ends zero steps origin target version n state a f e = ground arith
  loop-ends (suc fuel) steps origin target version n state a f e =
      elim (Bool-cases (ltb version target)) [
        | inr past ↦ ground arith
        | inl below ↦ elim (Option-cases (step_from version steps)) [
          | inl missing ↦ ground arith
          | inr (s, found) ↦
              let (same, up) = step_from-Advances version steps s a found in
              elim (Option-cases (s.migrate state)) [
                | inl throws ↦ ground arith
                | inr (next, m) ↦
                    loop-ends fuel steps origin target s.to_version (n + 1) next a (omega arith)
                      (ground arith)
              ]
        ]
      ]

  -- `runMigrations` ends, with a state or with an error: if each step leads to a later version, in
  -- whatever order and with whatever gaps, as many rounds as versions from the old one to the target
  -- are enough.
  pub run_migrations-ends :
      (fuel : ℕ) (steps : List (MigrationStep S)) (from target : ℕ) (persisted : S)
      → All Advances steps
      → target ≤ from + fuel
      → run_migrations fuel persisted from target steps ≢ endless
  unfolding run_migrations
  run_migrations-ends fuel steps from target persisted a f e = elim (Bool-cases (from == target)) [
    | inl same ↦ ground arith
    | inr other ↦ loop-ends fuel steps from target from 0 persisted a f (ground arith)
  ]

  loop-endless :
      (fuel : ℕ) (s : MigrationStep S) (origin target n : ℕ) (state : S)
      → s.to_version ≡ s.from_version
      → s.from_version < target
      → ((a : S) → s.migrate a ≢ none)
      → loop fuel (s ∷ []) origin target s.from_version n state ≡ endless
  unfolding loop
  loop-endless zero s origin target n state same below total = ground arith
  loop-endless (suc fuel) s origin target n state same below total =
      elim (Option-cases (s.migrate state)) [
        | inl throws ↦ elim (total state throws) [ ]
        | inr (next, m) ↦
            let here : s.from_version == s.from_version ≡ true = ground arith in
            let found : step_from s.from_version (s ∷ []) ≡ some s = rw here refl in
            loop-migrates fuel (s ∷ []) origin target n s state next below found m
            ∙ subst (λ v. loop fuel (s ∷ []) origin target v (n + 1) next ≡ endless) (sym same)
                (loop-endless fuel s origin target (n + 1) next same below total)
      ]

  -- A step that leads back to its own version makes a chain that `buildMigrations` accepts, and with it
  -- `runMigrations` never ends if the step does not throw: no number of rounds is enough for a store
  -- of that version below the target.
  pub run_migrations-endless :
      (fuel : ℕ) (s : MigrationStep S) (target : ℕ) (persisted : S)
      → s.to_version ≡ s.from_version
      → s.from_version < target
      → ((a : S) → s.migrate a ≢ none)
      → (build_migrations (s ∷ []) ≡ built (s ∷ []))
        × (run_migrations fuel persisted s.from_version target (s ∷ []) ≡ endless)
  unfolding run_migrations build_migrations sorted insert_step first_gap gap_after first_duplicate
  run_migrations-endless fuel s target persisted same below total =
      let e : s.from_version == target ≡ false = ground arith in
      (refl, rw e (loop-endless fuel s s.from_version target 0 persisted same below total))
