-- ===== src/RateLimit/ShareResolve.antt =====
-- apps/api/src/modules/shares/share-resolve-rate-limit.guard.ts: the limit on resolving share links.
-- The client's address is an argument: `getClientIp` reads it from the request. The log line and
-- the audit record of a refusal change no state of the guard.
use Prim.Native.Nat.{max}
use soroban_dev_console.Shared.{
  ℕ, ◌+◌, ◌-◌, ◌*◌, ◌/◌, ◌≤◌, String, ◌≡◌, Bool, true, false, none, some, arith, Dict, lookup,
  insert, if◌then◌else◌, leb,
}
use soroban_dev_console.RateLimit.FixedWindow.{Bucket, Request, consume, admit}

abbrev pub window_ms : ℕ
window_ms = 60000

abbrev pub max_requests : ℕ
max_requests = 30

-- Milliseconds in whole seconds, rounded up, as `Math.ceil(x / 1000)`.
abbrev pub seconds_of : ℕ → ℕ
seconds_of x = (x + 999) / 1000

-- The headers of an answer: the limit's three, or `Retry-After` with status 429.
pub data Answer : Type 0 where
  accepted : ℕ → ℕ → ℕ → Answer
  too_many : ℕ → Answer

unfoldable pub headers : ℕ → ℕ → Answer
headers remaining reset_at = accepted max_requests (max 0 remaining) (seconds_of reset_at)

unfoldable pub can_activate : ℕ → String → Dict Bucket → Answer × Dict Bucket
can_activate now ip buckets =
    let opened : Answer × Dict Bucket = (
      headers (max_requests - 1) (now + window_ms),
      insert ip (record { count = 1; reset_at = now + window_ms }) buckets,
    ) in
    elim (lookup ip buckets) [
      | none ↦ opened
      | some existing ↦
          if leb existing.reset_at now
          then opened
          else if leb max_requests existing.count
          then (too_many (max 1 (seconds_of (existing.reset_at - now))), buckets)
          else (
            headers (max_requests - (existing.count + 1)) existing.reset_at,
            insert ip (record existing { count = existing.count + 1 }) buckets,
          )
    ]

abbrev pub is_accepted : Answer → Bool
is_accepted (accepted limit remaining reset) = true
is_accepted (too_many retry_after) = false

abbrev pub request_of : ℕ × String → Request
request_of (now, ip) = record { now = now; key = ip; limit = max_requests; window_ms = window_ms }

-- A request is accepted, and the buckets change, exactly as in the fixed window with 30 requests in
-- a minute for each address.
pub can_activate-consume :
    (now : ℕ) (ip : String) (buckets : Dict Bucket)
    → (is_accepted (can_activate now ip buckets).0 ≡ (consume (request_of (now, ip)) buckets).0)
      × ((can_activate now ip buckets).1 ≡ (consume (request_of (now, ip)) buckets).1)
unfolding can_activate consume admit headers
can_activate-consume now ip buckets = ground arith

-- If a client is refused, its next request is accepted when it comes at least the seconds of
-- `Retry-After` later and no other request has changed the buckets.
pub can_activate-retry_after :
    (now later retry : ℕ) (ip : String) (buckets : Dict Bucket)
    → (can_activate now ip buckets).0 ≡ too_many retry
    → now + retry * 1000 ≤ later
    → is_accepted (can_activate later ip (can_activate now ip buckets).1).0 ≡ true
unfolding can_activate headers
can_activate-retry_after now later retry ip buckets e w = ground arith
