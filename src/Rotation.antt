-- ===== src/Rotation.antt =====
-- apps/api/src/auth/owner-key-rotation.service.ts: the rotation of owner keys. The table of
-- workspaces is a list of rows. `now` is the time of the request and `done` that of the update's end;
-- no other request comes between its count and its update. Log lines are left out.
pub mod Moves
pub mod Hourly
mod Tests
use soroban_dev_console.Shared.{
  ℕ, ◌+◌, ◌-◌, ◌/◌, String, Bool, true, false, ◌&&◌, Option, none, some, List, [], ◌∷◌, map, ltb,
  ◌==◌, length, select, str_eq, Dict, lookup, insert, delete, if◌then◌else◌,
}

abbrev pub grace_period_ms : ℕ
grace_period_ms = 86400000

abbrev pub rate_limit_window_ms : ℕ
rate_limit_window_ms = 3600000

pub record GracePeriodEntry : Type 0 where
  pub old_key : String
  pub new_key : String
  pub expires_at : ℕ

pub record Workspace : Type 0 where
  pub id : ℕ
  pub owner_key : String

pub record Rotations : Type 0 where
  pub workspaces : List Workspace
  pub rotation_timestamps : Dict ℕ
  pub grace_period_store : Dict GracePeriodEntry

-- The answer: the count and the end of the grace period, or an exception, that of the rate limit
-- with the minutes to wait.
pub data Answer : Type 0 where
  rotated : ℕ → ℕ → Answer
  bad_request not_found : Answer
  too_many : ℕ → Answer

abbrev pub is_owned_by : String → Workspace → Bool
is_owned_by key w = str_eq w.owner_key key

-- `lastRotation && Date.now() - lastRotation < RATE_LIMIT_WINDOW_MS`
abbrev pub is_limited : ℕ → Option ℕ → Bool
is_limited now none = false
is_limited now (some last) = ltb 0 last && ltb now (last + rate_limit_window_ms)

abbrev pub minutes_left : ℕ → Option ℕ → ℕ
minutes_left now none = 0
minutes_left now (some last) = (last + rate_limit_window_ms - now + 59999) / 60000

-- `updateMany({ where: { ownerKey: oldKey }, data: { ownerKey: newKey } })`
unfoldable pub update_many : String → String → List Workspace → List Workspace
update_many old_key new_key [] = []
update_many old_key new_key (w ∷ ws) =
    (if is_owned_by old_key w then record w { owner_key = new_key } else w)
    ∷ update_many old_key new_key ws

unfoldable pub rotate : ℕ → ℕ → String → String → Rotations → Answer × Rotations
rotate now done old_key new_key s =
    let last = lookup old_key s.rotation_timestamps in
    let count = length (select (is_owned_by old_key) s.workspaces) in
    if str_eq old_key new_key
    then (bad_request, s)
    else if is_limited now last
    then (too_many (minutes_left now last), s)
    else if count == 0
    then (not_found, s)
    else (
      rotated count (done + grace_period_ms),
      record {
        workspaces = update_many old_key new_key s.workspaces;
        rotation_timestamps = insert old_key done s.rotation_timestamps;
        grace_period_store =
            insert old_key
              (record { old_key = old_key; new_key = new_key; expires_at = done + grace_period_ms })
              s.grace_period_store;
      },
    )

unfoldable pub is_in_grace_period : ℕ → String → Rotations → Bool × Rotations
is_in_grace_period now key s = elim (lookup key s.grace_period_store) [
  | none ↦ (false, s)
  | some entry ↦
      if ltb entry.expires_at now
      then (false, record s { grace_period_store = delete key s.grace_period_store })
      else (true, s)
]

unfoldable pub get_new_key_for_grace_period : ℕ → String → Rotations → Option String
get_new_key_for_grace_period now old_key s = elim (lookup old_key s.grace_period_store) [
  | none ↦ none
  | some entry ↦ if ltb entry.expires_at now then none else some entry.new_key
]
