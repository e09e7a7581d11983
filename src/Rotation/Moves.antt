-- ===== src/Rotation/Moves.antt =====
-- apps/api/src/auth/owner-key-rotation.service.ts: what a rotation moves.
use soroban_dev_console.Shared.{
  ℕ, ◌+◌, ◌≡◌, ◌≢◌, refl, String, false, none, some, List, [], ◌∷◌, arith, length, select, str_eq,
  eq_iff, str_eq_self, Bool-cases, inl, inr, lookup-insert, if◌then◌else◌, leb,
}
use soroban_dev_console.Rotation.{
  Workspace, Rotations, rotated, is_owned_by, update_many, rotate, grace_period_ms,
  get_new_key_for_grace_period,
}

-- How many workspaces a key owns.
abbrev pub owned : String → List Workspace → ℕ
owned key ws = length (select (is_owned_by key) ws)

-- The row that `update_many` writes, and whose it is.
owner_after :
    (old_key new_key key : String) (w : Workspace)
    → is_owned_by key (if is_owned_by old_key w then record w { owner_key = new_key } else w)
      ≡ (if is_owned_by old_key w then str_eq new_key key else is_owned_by key w)
owner_after old_key new_key key w = ground arith

owned-old :
    (old_key new_key : String) (ws : List Workspace)
    → str_eq new_key old_key ≡ false
    → owned old_key (update_many old_key new_key ws) ≡ 0
unfolding update_many
owned-old old_key new_key [] n = refl
owned-old old_key new_key (w ∷ ws) n =
    let rest = owned-old old_key new_key ws n in
    elim (Bool-cases (is_owned_by old_key w)) [
      | inl mine ↦ rw (owner_after old_key new_key old_key w, mine, n) rest
      | inr other ↦ rw (owner_after old_key new_key old_key w, other) rest
    ]

owned-new :
    (old_key new_key : String) (ws : List Workspace)
    → str_eq new_key old_key ≡ false
    → owned new_key (update_many old_key new_key ws) ≡ owned new_key ws + owned old_key ws
unfolding update_many
owned-new old_key new_key [] n = omega arith
owned-new old_key new_key (w ∷ ws) n =
    let rest = owned-new old_key new_key ws n in
    elim (Bool-cases (is_owned_by old_key w)) [
      | inl mine ↦
          let moved : is_owned_by new_key w ≡ false = ground (
            arith,
            mine,
            n,
            eq_iff w.owner_key old_key,
            eq_iff w.owner_key new_key,
            eq_iff new_key old_key,
          ) in
          rw (owner_after old_key new_key new_key w, mine, str_eq_self new_key, moved)
            (omega (arith, rest))
      | inr other ↦ ground (arith, other, rest)
    ]

owned-other :
    (old_key new_key key : String) (ws : List Workspace)
    → str_eq old_key key ≡ false
    → str_eq new_key key ≡ false
    → owned key (update_many old_key new_key ws) ≡ owned key ws
unfolding update_many
owned-other old_key new_key key [] o n = refl
owned-other old_key new_key key (w ∷ ws) o n =
    let rest = owned-other old_key new_key key ws o n in
    elim (Bool-cases (is_owned_by old_key w)) [
      | inl mine ↦ ground (arith, mine, n, o, rest, eq_iff w.owner_key old_key)
      | inr other ↦ ground (arith, other, rest)
    ]

-- The counts of all keys after the update.
owned-update_many :
    (old_key new_key key : String) (ws : List Workspace)
    → str_eq old_key new_key ≡ false
    → owned key (update_many old_key new_key ws) ≡ (
        if str_eq key old_key
        then 0
        else if str_eq key new_key
        then owned new_key ws + owned old_key ws
        else owned key ws)
owned-update_many old_key new_key key ws n = ground (
  arith,
  owned-old old_key new_key ws,
  owned-new old_key new_key ws,
  owned-other old_key new_key key ws,
  eq_iff key old_key,
  eq_iff old_key key,
  eq_iff key new_key,
  eq_iff new_key key,
  eq_iff old_key new_key,
  eq_iff new_key old_key,
)

-- A rotation that is answered with a count has moved that many workspaces, all that the old key had
-- and at least one, to the new key; the workspaces of every other key stay. The new key is given for
-- the old one exactly until the grace period is over.
pub rotate-owned :
    (now done later count expires_at : ℕ) (old_key new_key key : String) (s : Rotations)
    → (rotate now done old_key new_key s).0 ≡ rotated count expires_at
    → let s' = (rotate now done old_key new_key s).1 in
      (count ≡ owned old_key s.workspaces)
      × (count ≢ 0)
      × (owned key s'.workspaces ≡ (
          if str_eq key old_key
          then 0
          else if str_eq key new_key
          then owned new_key s.workspaces + count
          else owned key s.workspaces))
      × (get_new_key_for_grace_period later old_key s'
          ≡ (if leb later (done + grace_period_ms) then some new_key else none))
unfolding rotate get_new_key_for_grace_period
rotate-owned now done later count expires_at old_key new_key key s e = ground (
  arith,
  owned-update_many old_key new_key key s.workspaces,
  str_eq_self old_key,
  lookup-insert old_key old_key
      (record { old_key = old_key; new_key = new_key; expires_at = done + grace_period_ms })
      s.grace_period_store,
)
