-- ===== src/RateLimit/Tests.antt =====
-- The rate limits of apps/api: the results at concrete requests.
use Prim.Native.Nat.{min}
use soroban_dev_console.Shared.{
  ℕ, ◌≤◌, ◌≡◌, inl, inr, refl, some, List, [], ◌∷◌, map, arith, length, select, String, Dict,
  lookup,
}
use soroban_dev_console.RateLimit.FixedWindow.{Bucket, admitted, made}
use soroban_dev_console.RateLimit.Policies
use soroban_dev_console.RateLimit.Policies.{pii_export, key_of, limit_of, consume_policy-window}
use soroban_dev_console.RateLimit.OwnerWindow.{
  OwnerRateLimitConfig, resolve_owner_rate_limit, requests, requests-sliding_window, no_history,
  in_window,
}

abbrev call : ℕ → Policies.Call
call now = record { now = now; identifier = "a"; policy = pii_export }

abbrev calls : List Policies.Call
calls = call 20 ∷ call 30 ∷ []

consume_policy-window_example :
    let key = key_of pii_export "a" in
    admitted key [] (map Policies.request_of (call 10 ∷ calls))
    ≡ min (made key (map Policies.request_of (call 10 ∷ calls))) (limit_of pii_export)
unfolding lookup
consume_policy-window_example =
    consume_policy-window (call 10) calls [] (inl refl)
      (inr (refl, omega arith), (inr (refl, omega arith), tt))

abbrev full : Dict Bucket
full = ("1.2.3.4", record { count = 100; reset_at = 60010 }) ∷ []

abbrev config : OwnerRateLimitConfig
config = record {
  defaults = record { max = 200; burst = 20 };
  overrides = ("key", record { max = some 2; burst = some 5 }) ∷ [];
}

abbrev no_hash : String → String
no_hash s = ""

abbrev times : List ℕ
times = 10 ∷ 20 ∷ 30 ∷ 70000 ∷ []

requests-sliding_window_example :
    let limit = resolve_owner_rate_limit no_hash "key" config in
    length (select (in_window 70001) (requests limit no_history times).accepted_at) ≤ limit.max
unfolding resolve_owner_rate_limit lookup
requests-sliding_window_example =
    requests-sliding_window no_hash "key" config times 70001 (omega arith)
      (omega arith, (omega arith, (omega arith, (omega arith, tt)))) (omega arith)
