-- ===== src/Migration/Chains.antt =====
-- apps/web/store/store-migration.ts: what a chain that was built does when it runs.
use mathlib.Core.Path.{subst}
use soroban_dev_console.Shared.{
  ℕ, zero, suc, ◌+◌, ◌<◌, ◌≡◌, refl, ap, true, false, none, some, List, [], ◌∷◌, ◌++◌, ◌==◌, any,
  length, arith, All, Bool-cases, Option-cases, inl, inr,
}
use soroban_dev_console.Migration.{
  MigrationStep, Outcome, built, migrated, step_failed, sorted, gap_after, first_gap,
  first_duplicate, build_migrations, step_from, loop, run_migrations,
}
use soroban_dev_console.Migration.Loops.{loop-done, loop-migrates, loop-throws}

any_congr : (v w : ℕ) (seen : List ℕ) → v ≡ w → any (λ u. u == v) seen ≡ any (λ u. u == w) seen
any_congr v w seen e = ap (λ x. any (λ u. u == x) seen) e

module _ {ℓ} {S : Type ℓ} where
  -- The step leads to a later version.
  abbrev pub Advances : MigrationStep S → Type 0
  Advances s = s.from_version < s.to_version

  -- The version behind the last step.
  abbrev pub last_version : MigrationStep S → List (MigrationStep S) → ℕ
  last_version s [] = s.to_version
  last_version s (t ∷ ts) = last_version t ts

  -- The migrations one after another, until one throws.
  abbrev pub in_order : ℕ → ℕ → ℕ → S → List (MigrationStep S) → Outcome S
  in_order origin n version state [] =
      migrated (record { state = state; migrated_from = origin; migrated_to = version; steps = n })
  in_order origin n version state (s ∷ ss) = elim (s.migrate state) [
    | none ↦ step_failed s.from_version s.to_version
    | some next ↦ in_order origin (n + 1) s.to_version next ss
  ]

  -- Each step of the second list is the one that the first has for its version.
  abbrev Found : List (MigrationStep S) → List (MigrationStep S) → Type ℓ
  Found chain ss = All (λ s. step_from s.from_version chain ≡ some s) ss

  Found-cons :
      (s : MigrationStep S) (chain ss : List (MigrationStep S))
      → Found chain ss
      → step_from s.from_version ss ≡ none
      → Found (s ∷ chain) ss
  Found-cons s chain [] f h = f
  Found-cons s chain (t ∷ ts) (f, fs) h = elim (Bool-cases (t.from_version == s.from_version)) [
    | inl e ↦ ground arith
    | inr e ↦ (ground arith, Found-cons s chain ts fs (ground arith))
  ]

  first_duplicate-fresh :
      (v : ℕ) (seen : List ℕ) (ss : List (MigrationStep S))
      → any (λ w. w == v) seen ≡ true
      → first_duplicate seen ss ≡ none
      → step_from v ss ≡ none
  unfolding first_duplicate
  first_duplicate-fresh v seen [] h d = refl
  first_duplicate-fresh v seen (s ∷ ss) h d = elim (Bool-cases (s.from_version == v)) [
    | inl e ↦ ground (arith, any_congr s.from_version v seen (ground arith))
    | inr e ↦ elim (Bool-cases (any (λ u. u == s.from_version) seen)) [
      | inl m ↦ ground arith
      | inr m ↦
          let rest : step_from v ss ≡ none =
            first_duplicate-fresh v (s.from_version ∷ seen) ss (ground arith) (ground arith) in
          ground arith
    ]
  ]

  first_duplicate-Found :
      (seen : List ℕ) (ss : List (MigrationStep S)) → first_duplicate seen ss ≡ none → Found ss ss
  unfolding first_duplicate
  first_duplicate-Found seen [] d = tt
  first_duplicate-Found seen (s ∷ ss) d = elim (Bool-cases (any (λ u. u == s.from_version) seen)) [
    | inl m ↦ ground arith
    | inr m ↦
        let rest : first_duplicate (s.from_version ∷ seen) ss ≡ none = ground arith in
        let fresh : step_from s.from_version ss ≡ none =
          first_duplicate-fresh s.from_version (s.from_version ∷ seen) ss (ground arith) rest in
        (
          ground arith,
          Found-cons s ss ss (first_duplicate-Found (s.from_version ∷ seen) ss rest) fresh,
        )
  ]

  Found-suffix :
      (chain before ss : List (MigrationStep S)) → Found chain (before ++ ss) → Found chain ss
  Found-suffix chain [] ss f = f
  Found-suffix chain (s ∷ before) ss (f, fs) = Found-suffix chain before ss fs

  Advances-suffix :
      (before ss : List (MigrationStep S)) → All Advances (before ++ ss) → All Advances ss
  Advances-suffix [] ss f = f
  Advances-suffix (s ∷ before) ss (f, fs) = Advances-suffix before ss fs

  gap_after-suffix :
      (s t : MigrationStep S) (before ss : List (MigrationStep S))
      → gap_after s (before ++ t ∷ ss) ≡ none
      → gap_after t ss ≡ none
  unfolding gap_after
  gap_after-suffix s t [] ss h = ground arith
  gap_after-suffix s t (u ∷ before) ss h = gap_after-suffix u t before ss (ground arith)

  first_gap-suffix :
      (t : MigrationStep S) (before ss : List (MigrationStep S))
      → first_gap (before ++ t ∷ ss) ≡ none
      → gap_after t ss ≡ none
  unfolding first_gap
  first_gap-suffix t [] ss h = h
  first_gap-suffix t (s ∷ before) ss h = gap_after-suffix s t before ss h

  last_version-le :
      (s : MigrationStep S) (ss : List (MigrationStep S))
      → gap_after s ss ≡ none
      → All Advances (s ∷ ss)
      → s.from_version < last_version s ss
  unfolding gap_after
  last_version-le s [] g (a, later) = a
  last_version-le s (t ∷ ts) g (a, later) =
      let linked : s.to_version ≡ t.from_version = ground arith in
      omega (arith, last_version-le t ts (ground arith) later)

  loop-in_order :
      (fuel : ℕ) (chain : List (MigrationStep S)) (origin n : ℕ) (s : MigrationStep S)
      (ss : List (MigrationStep S)) (state : S)
      → Found chain (s ∷ ss)
      → gap_after s ss ≡ none
      → All Advances (s ∷ ss)
      → length ss < fuel
      → loop fuel chain origin (last_version s ss) s.from_version n state
        ≡ in_order origin n s.from_version state (s ∷ ss)
  unfolding gap_after
  loop-in_order zero chain origin n s ss state f g a l = ground arith
  loop-in_order (suc fuel) chain origin n s [] state (f, fs) g (a, later) l =
      elim (Option-cases (s.migrate state)) [
        | inl m ↦ rw (loop-throws fuel chain origin s.to_version n s state a f m, m)
        | inr (next, m) ↦
            rw (loop-migrates fuel chain origin s.to_version n s state next a f m, m)
              (loop-done fuel chain origin s.to_version s.to_version (n + 1) next (omega arith))
      ]
  loop-in_order (suc fuel) chain origin n s (t ∷ ts) state (f, fs) g a l =
      let linked : s.to_version ≡ t.from_version = ground arith in
      let below : s.from_version < last_version t ts = last_version-le s (t ∷ ts) g a in
      elim (Option-cases (s.migrate state)) [
        | inl m ↦ rw (loop-throws fuel chain origin (last_version t ts) n s state below f m, m)
        | inr (next, m) ↦
            rw
              (
                loop-migrates fuel chain origin (last_version t ts) n s state next below f m,
                m,
                linked,
              )
              (loop-in_order fuel chain origin (n + 1) t ts next fs (ground arith) a.1
                (omega arith))
      ]

  build_migrations-chain :
      (steps chain : List (MigrationStep S))
      → build_migrations steps ≡ built chain
      → (first_gap chain ≡ none) × Found chain chain
  unfolding build_migrations
  build_migrations-chain steps chain h = elim (Option-cases (first_gap (sorted steps))) [
    | inr (g, e) ↦ ground arith
    | inl e ↦ elim (Option-cases (first_duplicate [] (sorted steps))) [
      | inr (v, d) ↦ ground arith
      | inl d ↦
          let same : sorted steps ≡ chain = ground arith in
          subst (λ c. (first_gap c ≡ none) × Found c c) same
            (e, first_duplicate-Found [] (sorted steps) d)
    ]
  ]

  -- A chain that `buildMigrations` gives, all of whose steps lead to a later version, migrates a store
  -- of the old version of any of its steps to the version behind the last one: with at least as much
  -- fuel as steps are left, the run applies the migrations from that step on in their order, each
  -- once, counts them, and ends there or with the error of the first one that throws.
  pub run_migrations-in_order :
      (fuel : ℕ) (steps before ss : List (MigrationStep S)) (s : MigrationStep S) (persisted : S)
      → build_migrations steps ≡ built (before ++ s ∷ ss)
      → All Advances (before ++ s ∷ ss)
      → length ss < fuel
      → run_migrations fuel persisted s.from_version (last_version s ss) (before ++ s ∷ ss)
        ≡ in_order s.from_version 0 s.from_version persisted (s ∷ ss)
  unfolding run_migrations
  run_migrations-in_order fuel steps before ss s persisted h a l =
      let (gaps, found) = build_migrations-chain steps (before ++ s ∷ ss) h in
      let later : All Advances (s ∷ ss) = Advances-suffix before (s ∷ ss) a in
      let linked : gap_after s ss ≡ none = first_gap-suffix s before ss gaps in
      let below : s.from_version < last_version s ss = last_version-le s ss linked later in
      let e : s.from_version == last_version s ss ≡ false = ground arith in
      rw e (
        loop-in_order fuel (before ++ s ∷ ss) s.from_version 0 s ss persisted
          (Found-suffix (before ++ s ∷ ss) before (s ∷ ss) found) linked later l)
