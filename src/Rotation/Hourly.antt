-- ===== src/Rotation/Hourly.antt =====
-- apps/api/src/auth/owner-key-rotation.service.ts: one rotation of a key in an hour.
use soroban_dev_console.Shared.{
  ℕ, ◌+◌, ◌-◌, ◌*◌, ◌/◌, ◌<◌, ◌≤◌, ◌≡◌, String, false, some, List, [], ◌∷◌, arith, str_eq, eq_iff,
  str_eq_self, lookup, lookup-insert, All,
}
use soroban_dev_console.Rotation.{Rotations, rotated, too_many, rotate, rate_limit_window_ms}

-- A call of `rotate`.
pub record Call : Type 0 where
  pub now : ℕ
  pub done : ℕ
  pub old_key : String
  pub new_key : String

pub run : Rotations → List Call → Rotations
run s [] = s
run s (c ∷ cs) = run (rotate c.now c.done c.old_key c.new_key s).1 cs

rotate-kept :
    (c : Call) (key : String) (last : ℕ) (s : Rotations)
    → 0 < last
    → c.now < last + rate_limit_window_ms
    → lookup key s.rotation_timestamps ≡ some last
    → lookup key (rotate c.now c.done c.old_key c.new_key s).1.rotation_timestamps ≡ some last
unfolding rotate
rotate-kept c key last s pos t e =
    ground (arith, eq_iff c.old_key key, lookup-insert c.old_key key c.done s.rotation_timestamps)

run-kept :
    (cs : List Call) (key : String) (last : ℕ) (s : Rotations)
    → 0 < last
    → All (λ c. c.now < last + rate_limit_window_ms) cs
    → lookup key s.rotation_timestamps ≡ some last
    → lookup key (run s cs).rotation_timestamps ≡ some last
unfolding run
run-kept [] key last s pos ts e = e
run-kept (c ∷ cs) key last s pos (t, ts) e =
    run-kept cs key last (rotate c.now c.done c.old_key c.new_key s).1 pos ts
      (rotate-kept c key last s pos t e)

limited :
    (now done last : ℕ) (old_key new_key : String) (s : Rotations)
    → 0 < last
    → now < last + rate_limit_window_ms
    → lookup old_key s.rotation_timestamps ≡ some last
    → str_eq old_key new_key ≡ false
    → (minutes : ℕ) × (rotate now done old_key new_key s ≡ (too_many minutes, s))
      × (0 < minutes)
      × (last + rate_limit_window_ms ≤ now + minutes * 60000)
unfolding rotate
limited now done last old_key new_key s pos t e n = (
  (last + rate_limit_window_ms - now + 59999) / 60000,
  ground (arith, e),
  omega arith,
  omega arith,
)

-- After a rotation of a key at the time `done` every other one of that key, to whatever other key,
-- is refused for an hour and changes nothing, whatever rotations come between; the minutes that the
-- refusal names are enough for the hour to be over.
pub rotate-hourly :
    (c later : Call) (cs : List Call) (count expires_at : ℕ) (s : Rotations)
    → (rotate c.now c.done c.old_key c.new_key s).0 ≡ rotated count expires_at
    → 0 < c.done
    → All (λ d. d.now < c.done + rate_limit_window_ms) cs
    → later.now < c.done + rate_limit_window_ms
    → later.old_key ≡ c.old_key
    → str_eq later.old_key later.new_key ≡ false
    → let s' = run (rotate c.now c.done c.old_key c.new_key s).1 cs in
      (minutes : ℕ) × (rotate later.now later.done later.old_key later.new_key s'
        ≡ (too_many minutes, s'))
      × (0 < minutes)
      × (c.done + rate_limit_window_ms ≤ later.now + minutes * 60000)
unfolding rotate
rotate-hourly c later cs count expires_at s e pos ts t same differs =
    let written : lookup c.old_key (rotate c.now c.done c.old_key c.new_key s).1.rotation_timestamps
        ≡ some c.done =
      ground (
        arith,
        lookup-insert c.old_key c.old_key c.done s.rotation_timestamps,
        str_eq_self c.old_key,
      ) in
    let kept =
      run-kept cs c.old_key c.done (rotate c.now c.done c.old_key c.new_key s).1 pos ts written in
    limited later.now later.done c.done later.old_key later.new_key _ pos t (rw same kept) differs
