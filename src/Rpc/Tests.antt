-- ===== src/Rpc/Tests.antt =====
-- apps/api/src/modules/rpc/rpc.service.ts and rpc-cache.service.ts: the results at concrete requests.
use soroban_dev_console.Shared.{ℕ, ◌≡◌, refl, false, some, List, [], ◌∷◌, String, lookup}
use soroban_dev_console.Breaker.{CircuitBreakerOptions, circuit_of}
use soroban_dev_console.Failover.Order.{no_endpoints}
use soroban_dev_console.Rpc.Fetch.{
  Attempt, Result, ok, err, Shared, bad_gateway, fetch_with_failover,
}
use soroban_dev_console.Rpc.FetchProbe.{fetch_with_failover-no_probe, probing_of}
use soroban_dev_console.Rpc.Cache.{RpcCache}

abbrev options : CircuitBreakerOptions
options = record { failure_threshold = 1; cooldown_ms = 100 }

abbrev two : String → List String
two network = "x" ∷ "y" ∷ []

abbrev attempt : String → Result ℕ → Attempt ℕ
attempt url r = record {
  url = url;
  asked_at = 10;
  reported_at = 20;
  result = r;
  breaker_calls = [];
  failover_calls = [];
}

abbrev tries : List (Attempt ℕ)
tries = attempt "x" (err bad_gateway) ∷ attempt "y" (ok 7) ∷ []

abbrev nothing_yet : Shared
nothing_yet = record { breakers = []; failover = no_endpoints }

abbrev x_open : Shared
x_open = record {
  breakers = ("x", record { failures = 1; opened_at = some 9; probing = false }) ∷ [];
  failover = no_endpoints;
}

fetch_with_failover-no_probe_example :
    probing_of "y" (fetch_with_failover options two 50 "testnet" tries nothing_yet).1 ≡ false
unfolding circuit_of lookup
fetch_with_failover-no_probe_example =
    fetch_with_failover-no_probe options two 50 "testnet" "y" tries nothing_yet (tt, (tt, tt)) refl

abbrev empty : RpcCache ℕ
empty = record {
  cache = [];
  inflight = [];
  total_deduped = 0;
  method_ttl = ("getNetwork", 60) ∷ [];
  dedup_window_ms = 5;
}

abbrev filled : RpcCache ℕ
filled = record empty { cache = ("testnet:getNetwork", record { value = 7; expires_at = 70 }) ∷ [] }
