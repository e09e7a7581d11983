-- ===== src/RateLimit/FixedWindow.antt =====
-- The fixed window of apps/api/src/auth/services/rate-limit.service.ts, of
-- modules/shares/share-resolve-rate-limit.guard.ts and of the client-address branch of
-- modules/rpc/rpc-rate-limit.guard.ts: a count for each key, which starts again at `reset_at`.
use Prim.Native.Nat.{min}
use soroban_dev_console.Shared.{
  ℕ, ◌+◌, ◌-◌, ◌≤◌, ◌<◌, String, ◌≡◌, ◌⊎◌, inl, inr, Bool, true, false, Option, none, some, List,
  [], ◌∷◌, arith, leb, if◌then◌else◌, Dict, lookup, insert, lookup-insert, str_eq, eq_iff,
  str_eq_self, All, Option-cases,
}

pub record Bucket : Type 0 where
  pub count : ℕ
  pub reset_at : ℕ

-- A request at a time, with its key and the limit and the window that apply to it.
pub record Request : Type 0 where
  pub now : ℕ
  pub key : String
  pub limit : ℕ
  pub window_ms : ℕ

-- The new bucket, or none if the request is refused, from the bucket of its key.
unfoldable pub admit : Request → Option Bucket → Option Bucket
admit r none = some (record { count = 1; reset_at = r.now + r.window_ms })
admit r (some b) =
    if leb b.reset_at r.now
    then some (record { count = 1; reset_at = r.now + r.window_ms })
    else if leb r.limit b.count
    then none
    else some (record b { count = b.count + 1 })

unfoldable pub consume : Request → Dict Bucket → Bool × Dict Bucket
consume r buckets = elim (admit r (lookup r.key buckets)) [
  | none ↦ (false, buckets)
  | some b ↦ (true, insert r.key b buckets)
]

-- The number of requests of a history that are admitted for a key, and of those that are made.
pub admitted : String → Dict Bucket → List Request → ℕ
admitted k buckets [] = 0
admitted k buckets (r ∷ rs) =
    let (done, buckets') = consume r buckets in
    (if done then (if str_eq r.key k then 1 else 0) else 0) + admitted k buckets' rs

pub made : String → List Request → ℕ
made k [] = 0
made k (r ∷ rs) = (if str_eq r.key k then 1 else 0) + made k rs

-- Each request for the key has this limit and falls before this time.
abbrev pub Within : String → ℕ → ℕ → Request → Type 0
Within k limit end r = (str_eq r.key k ≡ false) ⊎ ((r.limit ≡ limit) × (r.now < end))

lookup-consume :
    (r : Request) (k : String) (buckets : Dict Bucket)
    → lookup k (consume r buckets).1 ≡ (
        if str_eq r.key k
        then elim (admit r (lookup r.key buckets)) [ none ↦ lookup k buckets | some b ↦ some b ]
        else lookup k buckets)
unfolding consume
lookup-consume r k buckets = elim (Option-cases (admit r (lookup r.key buckets))) [
  | inl e ↦ ground (arith, e)
  | inr (b, e) ↦ ground (arith, e, lookup-insert r.key k b buckets)
]

consume-admit :
    (r : Request) (buckets : Dict Bucket)
    → (consume r buckets).0 ≡ elim (admit r (lookup r.key buckets)) [ none ↦ false | some b ↦ true ]
unfolding consume
consume-admit r buckets = ground arith

admitted-open :
    (k : String) (limit : ℕ) (rs : List Request) (b : Bucket) (buckets : Dict Bucket)
    → lookup k buckets ≡ some b
    → All (Within k limit b.reset_at) rs
    → admitted k buckets rs ≡ min (made k rs) (limit - b.count)
unfolding admitted made admit
admitted-open k limit [] b buckets e w = omega arith
admitted-open k limit (r ∷ rs) b buckets e (w, ws) =
    let buckets' = (consume r buckets).1 in
    let same = admitted-open k limit rs b buckets' in
    let counted = admitted-open k limit rs (record b { count = b.count + 1 }) buckets' in
    ground (
      arith,
      w,
      ws,
      lookup-consume r k buckets,
      consume-admit r buckets,
      eq_iff r.key k,
      same,
      counted,
    )

-- No window of the key is open at this time.
abbrev pub Expired : String → ℕ → Dict Bucket → Type 0
Expired k now buckets =
    (lookup k buckets ≡ none) ⊎ ((b : Bucket) × (lookup k buckets ≡ some b) × (b.reset_at ≤ now))

pub admitted-window :
    (first : Request) (rs : List Request) (buckets : Dict Bucket)
    → 0 < first.limit
    → Expired first.key first.now buckets
    → All (Within first.key first.limit (first.now + first.window_ms)) rs
    → admitted first.key buckets (first ∷ rs) ≡ min (made first.key (first ∷ rs)) first.limit
unfolding admitted made admit
admitted-window first rs buckets pos old w =
    let fresh : Bucket = record { count = 1; reset_at = first.now + first.window_ms } in
    let buckets' = (consume first buckets).1 in
    ground (
      arith,
      old,
      lookup-consume first first.key buckets,
      consume-admit first buckets,
      str_eq_self first.key,
      admitted-open first.key first.limit rs fresh buckets',
      w,
    )
