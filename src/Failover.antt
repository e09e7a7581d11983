-- ===== src/Failover.antt =====
-- apps/api/src/modules/rpc/rpc-failover.service.ts: the upstream endpoints of each network.
-- `urls` stands for `parseUrls`, which reads the environment, and `cooldown_ms` for the configured
-- cooldown. The clock is an argument, in milliseconds since the epoch.
pub mod Order
pub mod Health
mod Tests
use soroban_dev_console.Shared.{
  ℕ, suc, ◌+◌, ◌%◌, ◌<◌, String, Bool, true, false, ◌&&◌, ◌||◌, Option, none, some, List, [], ◌∷◌,
  ◌++◌, map, ltb, leb, ◌==◌, if◌then◌else◌, length, select, find, take, drop, str_eq, Dict, lookup,
  insert,
}

abbrev pub failure_threshold : ℕ
failure_threshold = 3

pub record EndpointState : Type 0 where
  pub url : String
  pub failures : ℕ
  pub degraded_until : ℕ

pub record Failover : Type 0 where
  pub endpoints : Dict (List EndpointState)
  pub round_robin_indices : Dict ℕ

abbrev pub healthy_at : ℕ → EndpointState → Bool
healthy_at now s = s.degraded_until == 0 || ltb s.degraded_until now

abbrev pub degraded_at : ℕ → EndpointState → Bool
degraded_at now s = ltb 0 s.degraded_until && leb now s.degraded_until

-- The reset of an endpoint that has recovered.
unfoldable pub recover : ℕ → EndpointState → EndpointState
recover now s =
    if ltb 0 s.degraded_until && ltb s.degraded_until now
    then record s { failures = 0; degraded_until = 0 }
    else s

abbrev pub urls_of : List EndpointState → List String
urls_of = map (λ s. s.url)

-- Writes to the first endpoint of that url, which `findState` returns a reference to.
unfoldable pub update_state :
    (EndpointState → EndpointState) → String → List EndpointState → List EndpointState
update_state f url [] = []
update_state f url (s ∷ ss) = if str_eq s.url url then f s ∷ ss else s ∷ update_state f url ss

abbrev pub find_state : String → List EndpointState → Option EndpointState
find_state url ss = find (λ s. str_eq s.url url) ss

unfoldable pub start_index : String → Failover → ℕ
start_index network fo = elim (lookup network fo.round_robin_indices) [ none ↦ 0 | some i ↦ i ]

-- The endpoints in the order in which they are tried, before the urls are taken.
unfoldable pub ordered : ℕ → ℕ → List EndpointState → List EndpointState
ordered now start states =
    let healthy = select (healthy_at now) states in
    let degraded = select (degraded_at now) states in
    if ltb 1 (length healthy)
    then (drop start healthy ++ take start healthy) ++ degraded
    else healthy ++ degraded

abbrev pub fresh_state : String → EndpointState
fresh_state url = record { url = url; failures = 0; degraded_until = 0 }

unfoldable pub failed : ℕ → ℕ → EndpointState → EndpointState
failed cooldown_ms now s =
    let n = s.failures + 1 in
    record s {
      failures = n;
      degraded_until = (if leb failure_threshold n then now + cooldown_ms else s.degraded_until);
    }

module _ (urls : String → List String) where
  unfoldable pub states_of : String → Failover → List EndpointState
  states_of network fo = elim (lookup network fo.endpoints) [
    | none ↦ map fresh_state (urls network)
    | some ss ↦ ss
  ]

  -- `getOrInit`
  unfoldable pub get_or_init : String → Failover → List EndpointState × Failover
  get_or_init network fo = elim (lookup network fo.endpoints) [
    | none ↦
        let ss = map fresh_state (urls network) in
        (ss, record fo { endpoints = insert network ss fo.endpoints })
    | some ss ↦ (ss, fo)
  ]

  unfoldable pub get_endpoints : ℕ → String → Failover → List String × Failover
  get_endpoints now network fo =
      let (states, fo₁) = get_or_init network fo in
      let start = start_index network fo₁ in
      let count = length (select (healthy_at now) states) in
      let recovered = insert network (map (recover now) states) fo₁.endpoints in
      (
        urls_of (ordered now start states),
        record {
          endpoints = recovered;
          round_robin_indices =
              (if ltb 1 count
                then insert network ((start + 1) % count) fo₁.round_robin_indices
                else fo₁.round_robin_indices);
        },
      )

  unfoldable pub record_success : String → String → Failover → Failover
  record_success network url fo =
      let (states, fo₁) = get_or_init network fo in
      record fo₁ {
        endpoints =
            insert network
              (update_state (λ s. record s { failures = 0; degraded_until = 0 }) url states)
              fo₁.endpoints;
      }

  module _ (cooldown_ms : ℕ) where
    unfoldable pub record_failure : ℕ → String → String → Failover → Bool × Failover
    record_failure now network url fo =
        let (states, fo₁) = get_or_init network fo in
        elim (find_state url states) [
          | none ↦ (false, fo₁)
          | some s ↦ (
            leb failure_threshold (s.failures + 1),
            record fo₁ {
              endpoints =
                  insert network (update_state (failed cooldown_ms now) url states) fo₁.endpoints;
            },
          )
        ]
