-- ===== src/Rotation/Tests.antt =====
-- apps/api/src/auth/owner-key-rotation.service.ts: the results at concrete workspaces.
use soroban_dev_console.Shared.{ℕ, ◌+◌, ◌*◌, ◌<◌, ◌≤◌, ◌≡◌, refl, List, [], ◌∷◌, arith, lookup}
use soroban_dev_console.Rotation.{Rotations, too_many, rotate, rate_limit_window_ms}
use soroban_dev_console.Rotation.Hourly.{Call, run, rotate-hourly}

abbrev start : Rotations
start = record {
  workspaces = record { id = 1; owner_key = "a" } ∷ record { id = 2; owner_key = "b" } ∷ [];
  rotation_timestamps = [];
  grace_period_store = [];
}

abbrev first : Call
first = record { now = 10; done = 11; old_key = "a"; new_key = "b" }

abbrev later : Call
later = record { now = 3600010; done = 3600010; old_key = "a"; new_key = "c" }

abbrev between : List Call
between = record { now = 20; done = 21; old_key = "b"; new_key = "a" } ∷ []

rotate-hourly_example :
    let s' = run (rotate 10 11 "a" "b" start).1 between in
    (minutes : ℕ) × (rotate 3600010 3600010 "a" "c" s' ≡ (too_many minutes, s'))
    × (0 < minutes)
    × (11 + rate_limit_window_ms ≤ 3600010 + minutes * 60000)
unfolding rotate lookup
rotate-hourly_example =
    rotate-hourly first later between 1 86400011 start refl (omega arith) (omega arith, tt)
      (omega arith) refl refl
