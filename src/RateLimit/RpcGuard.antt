-- ===== src/RateLimit/RpcGuard.antt =====
-- apps/api/src/modules/rpc/rpc-rate-limit.guard.ts, the requests without an owner key: the limit of
-- a client's address. `getClientIp` reads the address from the request and is an argument here.
use Prim.Native.Nat.{max}
use soroban_dev_console.Shared.{
  ℕ, ◌+◌, ◌-◌, ◌/◌, ◌≤◌, String, ◌≡◌, Bool, true, false, Option, none, some, arith, Dict, lookup,
  insert, lookup-insert, str_eq_self, if◌then◌else◌, leb,
}
use soroban_dev_console.RateLimit.FixedWindow.{Bucket, Request, consume, admit}

abbrev pub window_ms : ℕ
window_ms = 60000

abbrev pub max_requests : ℕ
max_requests = 100

abbrev pub seconds_of : ℕ → ℕ
seconds_of x = (x + 999) / 1000

-- `X-RateLimit-Limit`, `-Remaining` and `-Reset`, or `Retry-After` with status 429.
pub data Answer : Type 0 where
  accepted : ℕ → ℕ → ℕ → Answer
  too_many : ℕ → Answer

unfoldable pub ip_headers : ℕ → ℕ → Answer
ip_headers remaining reset_at = accepted max_requests (max 0 remaining) (seconds_of reset_at)

-- `existing?.resetAt ?? now + WINDOW_MS`
abbrev pub old_reset : Option Bucket → ℕ → ℕ
old_reset none reset = reset
old_reset (some b) reset = b.reset_at

unfoldable pub check_ip_rate_limit : ℕ → String → Dict Bucket → Answer × Dict Bucket
check_ip_rate_limit now ip buckets =
    let existing = lookup ip buckets in
    let opened : Answer × Dict Bucket = (
      ip_headers (max_requests - 1) (old_reset existing (now + window_ms)),
      insert ip (record { count = 1; reset_at = now + window_ms }) buckets,
    ) in
    elim existing [
      | none ↦ opened
      | some b ↦
          if leb b.reset_at now
          then opened
          else if leb max_requests b.count
          then (too_many (max 1 (seconds_of (b.reset_at - now))), buckets)
          else (
            ip_headers (max_requests - (b.count + 1)) b.reset_at,
            insert ip (record b { count = b.count + 1 }) buckets,
          )
    ]

abbrev pub is_accepted : Answer → Bool
is_accepted (accepted limit remaining reset) = true
is_accepted (too_many retry_after) = false

abbrev pub request_of : ℕ × String → Request
request_of (now, ip) = record { now = now; key = ip; limit = max_requests; window_ms = window_ms }

-- A request is accepted, and the buckets change, exactly as in the fixed window with 100 requests in
-- a minute for each address.
pub check_ip_rate_limit-consume :
    (now : ℕ) (ip : String) (buckets : Dict Bucket)
    → (is_accepted (check_ip_rate_limit now ip buckets).0
        ≡ (consume (request_of (now, ip)) buckets).0)
      × ((check_ip_rate_limit now ip buckets).1 ≡ (consume (request_of (now, ip)) buckets).1)
unfolding check_ip_rate_limit consume admit ip_headers
check_ip_rate_limit-consume now ip buckets = ground arith

-- The `X-RateLimit-Reset` header of an answer.
abbrev pub reset_of : Answer → ℕ
reset_of (accepted limit remaining reset) = reset
reset_of (too_many retry_after) = 0

-- The request of a known client that opens a new window is answered with the reset time of the
-- window that has ended, which is not in the future, while the bucket is set to a reset a whole
-- window later.
pub check_ip_rate_limit-stale_reset :
    (now : ℕ) (ip : String) (buckets : Dict Bucket) (b : Bucket)
    → lookup ip buckets ≡ some b
    → b.reset_at ≤ now
    → let (answer, buckets') = check_ip_rate_limit now ip buckets in
      (reset_of answer ≡ seconds_of b.reset_at)
      × (reset_of answer ≤ seconds_of now)
      × (lookup ip buckets' ≡ some (record { count = 1; reset_at = now + window_ms }))
unfolding check_ip_rate_limit ip_headers
check_ip_rate_limit-stale_reset now ip buckets b e old = ground (
  arith,
  str_eq_self ip,
  lookup-insert ip ip (record { count = 1; reset_at = now + window_ms }) buckets,
)
