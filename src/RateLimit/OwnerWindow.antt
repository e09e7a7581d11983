-- ===== src/RateLimit/OwnerWindow.antt =====
-- apps/api/src/modules/rpc/rpc-rate-limit.guard.ts, the requests with an owner key: a sliding window
-- of a minute, with the limits of apps/api/src/lib/owner-rate-limit-config.ts. The hash of the key
-- is an argument: it stands for SHA-256 of node:crypto.
use Prim.Native.Nat.{min, max}
use Prim.Native.String
use soroban_dev_console.Shared.{
  ℕ, ◌+◌, ◌-◌, ◌/◌, ◌<◌, ◌≤◌, String, ◌≡◌, Bool, true, false, Option, none, some, List, [], ◌∷◌,
  ◌++◌, arith, Dict, lookup, insert, if◌then◌else◌, leb, ltb, select, length, length-append, refl,
  length-select-le,
}

pub record OwnerRateLimit : Type 0 where
  pub max : ℕ
  pub burst : ℕ

pub record Override : Type 0 where
  pub max : Option ℕ
  pub burst : Option ℕ

pub record OwnerRateLimitConfig : Type 0 where
  pub defaults : OwnerRateLimit
  pub overrides : Dict Override

abbrev pub default_owner_rate_limit : OwnerRateLimit
default_owner_rate_limit = record { max = 200; burst = 20 }

abbrev pub or_else {ℓ} : {A : Type ℓ} → Option A → A → A
or_else none d = d
or_else (some a) d = a

abbrev pub override_of : (String → String) → String → OwnerRateLimitConfig → Override
override_of hash owner_key config =
    elim (lookup (String.◌++◌ "sha256:" (hash owner_key)) config.overrides) [
      | some o ↦ o
      | none ↦ or_else (lookup owner_key config.overrides) (record { max = none; burst = none })
    ]

unfoldable pub resolve_owner_rate_limit :
    (String → String) → String → OwnerRateLimitConfig → OwnerRateLimit
resolve_owner_rate_limit hash owner_key config =
    let o = override_of hash owner_key config in
    let most = or_else o.max config.defaults.max in
    record { max = most; burst = min (or_else o.burst config.defaults.burst) most }

abbrev pub owner_window_ms : ℕ
owner_window_ms = 60000

abbrev pub seconds_of : ℕ → ℕ
seconds_of x = (x + 999) / 1000

pub data Answer : Type 0 where
  accepted : ℕ → ℕ → ℕ → Answer
  too_many : ℕ → Answer

unfoldable pub owner_headers : ℕ → ℕ → ℕ → Answer
owner_headers limit remaining reset_at = accepted limit (max 0 remaining) (seconds_of reset_at)

-- `timestamps[0]`, read only where the list is not empty.
abbrev pub oldest : List ℕ → ℕ
oldest [] = 0
oldest (t ∷ ts) = t

-- `t > now - OWNER_WINDOW_MS`
abbrev pub in_window : ℕ → ℕ → Bool
in_window now t = ltb now (t + owner_window_ms)

-- The answer to a request with these limits, and the new timestamps, from those of the owner's
-- bucket; an owner without a bucket has none.
unfoldable pub check_timestamps : OwnerRateLimit → ℕ → List ℕ → Answer × List ℕ
check_timestamps limit now [] =
    (owner_headers limit.max (limit.max - 1) (now + owner_window_ms), now ∷ [])
check_timestamps limit now (t ∷ ts) =
    let kept = select (in_window now) (t ∷ ts) in
    let pushed = kept ++ now ∷ [] in
    if ltb (length kept) limit.burst
    then (owner_headers limit.max (limit.max - length pushed) (now + owner_window_ms), pushed)
    else if leb limit.max (length kept)
    then (too_many (max 1 (seconds_of (oldest kept + owner_window_ms - now))), kept)
    else (
      owner_headers limit.max (limit.max - length pushed) (oldest kept + owner_window_ms),
      pushed,
    )

module _ (hash : String → String) (config : OwnerRateLimitConfig) where
  unfoldable pub check_owner_rate_limit : ℕ → String → Dict (List ℕ) → Answer × Dict (List ℕ)
  check_owner_rate_limit now owner_key buckets =
      let limit = resolve_owner_rate_limit hash owner_key config in
      let (answer, timestamps) =
        check_timestamps limit now (or_else (lookup owner_key buckets) []) in
      (answer, insert owner_key timestamps buckets)

abbrev pub is_accepted : Answer → Bool
is_accepted (accepted limit remaining reset) = true
is_accepted (too_many retry_after) = false

-- A history of one owner: the times of the requests that were accepted, and the bucket.
pub record History : Type 0 where
  pub accepted_at : List ℕ
  pub timestamps : List ℕ

pub request : OwnerRateLimit → ℕ → History → History
request limit now h =
    let (answer, kept) = check_timestamps limit now h.timestamps in
    record {
      accepted_at = (if is_accepted answer then h.accepted_at ++ now ∷ [] else h.accepted_at);
      timestamps = kept;
    }

pub requests : OwnerRateLimit → History → List ℕ → History
requests limit h [] = h
requests limit h (now ∷ times) = requests limit (request limit now h) times

-- The times do not fall, and start at `start` or later.
abbrev pub Rising : ℕ → List ℕ → Type 0
Rising start [] = Unit {0}
Rising start (t ∷ ts) = (start ≤ t) × Rising t ts

-- The last of the times.
abbrev pub last_of : ℕ → List ℕ → ℕ
last_of start [] = start
last_of start (t ∷ ts) = last_of t ts

-- From the time `now` on, the bucket has of each window what was accepted in it, and at most the
-- maximum of the limit.
pub record Tracks (limit : OwnerRateLimit) (now : ℕ) (h : History) : Type 0 where
  pub same :
      (u : ℕ) → now ≤ u → select (in_window u) h.accepted_at ≡ select (in_window u) h.timestamps
  pub bounded : length h.timestamps ≤ limit.max

select-append {ℓ} :
    {A : Type ℓ} (p : A → Bool) (xs ys : List A) → select p (xs ++ ys) ≡ select p xs ++ select p ys
select-append p [] ys = refl
select-append p (x ∷ xs) ys = ground (arith, select-append p xs ys)

select-window :
    (now u : ℕ) (ts : List ℕ)
    → now ≤ u
    → select (in_window u) (select (in_window now) ts) ≡ select (in_window u) ts
select-window now u [] h = refl
select-window now u (t ∷ ts) h = ground (arith, select-window now u ts h)

module _ (limit : OwnerRateLimit) where
  check_timestamps-same :
      (now u : ℕ) (acc ts : List ℕ)
      → now ≤ u
      → select (in_window u) acc ≡ select (in_window u) ts
      → let (answer, kept) = check_timestamps limit now ts in
        select (in_window u) (if is_accepted answer then acc ++ now ∷ [] else acc)
        ≡ select (in_window u) kept
  unfolding check_timestamps owner_headers
  check_timestamps-same now u acc [] le e = rw (select-append (in_window u) acc (now ∷ []), e) refl
  check_timestamps-same now u acc (t ∷ ts) le e = ground (
    arith,
    e,
    select-append (in_window u) acc (now ∷ []),
    select-append (in_window u) (select (in_window now) (t ∷ ts)) (now ∷ []),
    select-window now u (t ∷ ts) le,
  )

  check_timestamps-bounded :
      (now : ℕ) (ts : List ℕ)
      → limit.burst ≤ limit.max
      → 0 < limit.max
      → length ts ≤ limit.max
      → length (check_timestamps limit now ts).1 ≤ limit.max
  unfolding check_timestamps
  check_timestamps-bounded now [] b pos h = omega arith
  check_timestamps-bounded now (t ∷ ts) b pos h = ground (
    arith,
    length-append (select (in_window now) (t ∷ ts)) (now ∷ []),
    length-select-le (in_window now) (t ∷ ts),
  )

  request-Tracks :
      (start now : ℕ) (h : History)
      → limit.burst ≤ limit.max
      → 0 < limit.max
      → start ≤ now
      → Tracks limit start h
      → Tracks limit now (request limit now h)
  unfolding request
  request-Tracks start now h b pos le t = record {
    same = λ u later.
        check_timestamps-same now u h.accepted_at h.timestamps later (t.same u (omega arith));
    bounded = check_timestamps-bounded now h.timestamps b pos t.bounded;
  }

  requests-Tracks :
      (start : ℕ) (times : List ℕ) (h : History)
      → limit.burst ≤ limit.max
      → 0 < limit.max
      → Rising start times
      → Tracks limit start h
      → Tracks limit (last_of start times) (requests limit h times)
  unfolding requests
  requests-Tracks start [] h b pos r t = t
  requests-Tracks start (now ∷ times) h b pos (le, r) t =
      requests-Tracks now times (request limit now h) b pos r
        (request-Tracks start now h b pos le t)

abbrev pub no_history : History
no_history = record { accepted_at = []; timestamps = [] }

-- The limits that apply to an owner have a burst of at most the maximum.
pub resolve_owner_rate_limit-burst :
    (hash : String → String) (owner_key : String) (config : OwnerRateLimitConfig)
    → let limit = resolve_owner_rate_limit hash owner_key config in limit.burst ≤ limit.max
unfolding resolve_owner_rate_limit
resolve_owner_rate_limit-burst hash owner_key config = omega arith

-- Under the limits that the configuration gives an owner, with a positive maximum, and for requests
-- at times that do not fall, the accepted requests of the minute up to the last request are never
-- more than the maximum, and so for the minute up to any later time.
pub requests-sliding_window :
    (hash : String → String) (owner_key : String) (config : OwnerRateLimitConfig) (times : List ℕ)
    (now : ℕ)
    → 0 < (resolve_owner_rate_limit hash owner_key config).max
    → Rising 0 times
    → last_of 0 times ≤ now
    → let limit = resolve_owner_rate_limit hash owner_key config in
      length (select (in_window now) (requests limit no_history times).accepted_at) ≤ limit.max
requests-sliding_window hash owner_key config times now pos r le =
    let limit = resolve_owner_rate_limit hash owner_key config in
    let t =
      requests-Tracks limit 0 times no_history
        (resolve_owner_rate_limit-burst hash owner_key config) pos r
        (record { same = λ u later. refl; bounded = omega arith }) in
    rw (t.same now le) (
      omega (
        arith,
        t.bounded,
        length-select-le (in_window now) (requests limit no_history times).timestamps,
      ))
