-- ===== src/Failover/Tests.antt =====
-- apps/api/src/modules/rpc/rpc-failover.service.ts: the results at concrete endpoints.
use soroban_dev_console.Shared.{
  ℕ, ◌+◌, ◌%◌, ◌≡◌, refl, List, [], ◌∷◌, arith, String, lookup, length, get_elem?,
}
use soroban_dev_console.Failover.{
  EndpointState, Failover, urls_of, start_index, states_of, get_endpoints,
}
use soroban_dev_console.Failover.Order.{Call, gets, fails}
use soroban_dev_console.Failover.Health.{calls, get_endpoints-round_robin}

abbrev three : String → List String
three network = "x" ∷ "y" ∷ "z" ∷ []

abbrev failing_y : EndpointState
failing_y = record { url = "y"; failures = 2; degraded_until = 0 }

abbrev with_y : Failover
with_y = record {
  endpoints =
      ("testnet", record { url = "x"; failures = 0; degraded_until = 0 } ∷ failing_y ∷ []) ∷ [];
  round_robin_indices = ("testnet", 1) ∷ [];
}

abbrev times : List ℕ
times = 7 ∷ 8 ∷ []

abbrev history : List (ℕ × Call)
history =
    (5, gets "testnet")
    ∷ (6, fails "testnet" "x")
    ∷ (7, fails "testnet" "x")
    ∷ (8, fails "testnet" "x")
    ∷ []

get_endpoints-round_robin_example :
    get_elem? (get_endpoints three 9 "testnet" (calls three "testnet" with_y times)).0 0
    ≡ get_elem?
        (urls_of (states_of three "testnet" with_y))
        ((start_index "testnet" with_y + length times) % length (states_of three "testnet" with_y))
unfolding states_of start_index lookup
get_endpoints-round_robin_example =
    get_endpoints-round_robin three "testnet" with_y times 9 refl (omega arith) (omega arith)
