-- ===== src/Migration.antt =====
-- apps/web/store/store-migration.ts: the chain of migrations of a persisted store. A version is a
-- natural number, a migration that throws gives none, and the loop runs on fuel; the texts of the
-- errors are their versions, and the log line of `createMigrateFn` is left out.
pub mod Chains
pub mod Ends
mod Loops
mod Tests
use soroban_dev_console.Shared.{
  ℕ, zero, suc, ◌+◌, Bool, true, false, Option, none, some, List, [], ◌∷◌, ltb, leb, ◌==◌, find,
  any, if◌then◌else◌,
}

pub record MigrationStep {ℓ} (S : Type ℓ) : Type ℓ where
  pub from_version : ℕ
  pub to_version : ℕ
  pub migrate : S → Option S

pub record MigrationResult {ℓ} (S : Type ℓ) : Type ℓ where
  pub state : S
  pub migrated_from : ℕ
  pub migrated_to : ℕ
  pub steps : ℕ

-- What `buildMigrations` returns or throws.
pub data Built {ℓ} (S : Type ℓ) : Type ℓ where
  built : List (MigrationStep S) → Built S
  gap : ℕ → ℕ → Built S
  duplicate : ℕ → Built S

-- What `runMigrations` returns or throws; `endless` stands for a loop behind its fuel.
pub data Outcome {ℓ} (S : Type ℓ) : Type ℓ where
  migrated : MigrationResult S → Outcome S
  no_step : ℕ → ℕ → Outcome S
  step_failed : ℕ → ℕ → Outcome S
  endless : Outcome S

module _ {ℓ} {S : Type ℓ} where
  -- `sort` by the old version, which is stable.
  unfoldable pub insert_step : MigrationStep S → List (MigrationStep S) → List (MigrationStep S)
  insert_step s [] = s ∷ []
  insert_step s (t ∷ ts) =
      if leb s.from_version t.from_version then s ∷ t ∷ ts else t ∷ insert_step s ts

  unfoldable pub sorted : List (MigrationStep S) → List (MigrationStep S)
  sorted [] = []
  sorted (s ∷ ss) = insert_step s (sorted ss)

  -- The first gap behind a step, and of a chain.
  unfoldable pub gap_after : MigrationStep S → List (MigrationStep S) → Option (ℕ × ℕ)
  gap_after s [] = none
  gap_after s (t ∷ ts) =
      if s.to_version == t.from_version then gap_after t ts else some (s.to_version, t.from_version)

  unfoldable pub first_gap : List (MigrationStep S) → Option (ℕ × ℕ)
  first_gap [] = none
  first_gap (s ∷ ss) = gap_after s ss

  -- The first version that was seen before.
  unfoldable pub first_duplicate : List ℕ → List (MigrationStep S) → Option ℕ
  first_duplicate seen [] = none
  first_duplicate seen (s ∷ ss) =
      if any (λ v. v == s.from_version) seen
      then some s.from_version
      else first_duplicate (s.from_version ∷ seen) ss

  unfoldable pub build_migrations : List (MigrationStep S) → Built S
  build_migrations steps = elim (first_gap (sorted steps)) [
    | some (a, b) ↦ gap a b
    | none ↦ elim (first_duplicate [] (sorted steps)) [
      | some v ↦ duplicate v
      | none ↦ built (sorted steps)
    ]
  ]

  abbrev pub step_from : ℕ → List (MigrationStep S) → Option (MigrationStep S)
  step_from v steps = find (λ s. s.from_version == v) steps

  -- The `while` loop: `origin` is the version at its start, and `n` counts the steps.
  unfoldable pub loop : ℕ → List (MigrationStep S) → ℕ → ℕ → ℕ → ℕ → S → Outcome S
  loop zero steps origin target version n state =
      if ltb version target
      then endless
      else migrated
          (record { state = state; migrated_from = origin; migrated_to = version; steps = n })
  loop (suc fuel) steps origin target version n state =
      if ltb version target
      then elim (step_from version steps) [
        | none ↦ no_step version target
        | some s ↦ elim (s.migrate state) [
          | none ↦ step_failed version s.to_version
          | some next ↦ loop fuel steps origin target s.to_version (n + 1) next
        ]
      ]
      else migrated
          (record { state = state; migrated_from = origin; migrated_to = version; steps = n })

  unfoldable pub run_migrations : ℕ → S → ℕ → ℕ → List (MigrationStep S) → Outcome S
  run_migrations fuel persisted from target steps =
      if from == target
      then migrated
          (record { state = persisted; migrated_from = from; migrated_to = target; steps = 0 })
      else loop fuel steps from target from 0 persisted
