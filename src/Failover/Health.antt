-- ===== src/Failover/Health.antt =====
-- apps/api/src/modules/rpc/rpc-failover.service.ts: degradation, recovery and the round robin.
use mathlib.Core.List.{append_assoc}
use native.Mathlib.Nat.{mod-lt, mod-eq_of_lt, mod-add-mod, add-zero}
use soroban_dev_console.Shared.{
  ℕ, zero, suc, ◌+◌, ◌%◌, ◌<◌, String, ◌≡◌, refl, sym, ap, ◌∙◌, true, some, List, [], ◌∷◌, ◌++◌,
  map, arith, leb, lt→ltb, ◌==◌, Dict, if◌then◌else◌, length, select, take, drop, insert,
  lookup-insert, str_eq_self, get_elem?, all,
}
use soroban_dev_console.Failover.{
  EndpointState, Failover, failure_threshold, healthy_at, degraded_at, recover, urls_of,
  update_state, find_state, start_index, ordered, states_of, get_or_init, get_endpoints,
  record_success, failed, record_failure,
}
use soroban_dev_console.Failover.Order.{
  get_or_init-states, states_of-get, states_of-success, states_of-failure, get_endpoints-ordered,
  start_index-init,
}

start_index-write :
    (network : String) (i : ℕ) (es : Dict (List EndpointState)) (rr : Dict ℕ)
    → start_index network (record { endpoints = es; round_robin_indices = insert network i rr }) ≡ i
unfolding start_index
start_index-write network i es rr =
    rw (start_index, lookup-insert network network i rr, str_eq_self network)

mod_step : (i k n : ℕ) → ((i + 1) % n + k) % n ≡ (i + suc k) % n
mod_step i k n = mod-add-mod (i + 1) n k ∙ ap (λ x. x % n) (omega arith)

rotated :
    (i : ℕ) (ss rest : List EndpointState)
    → i < length ss
    → get_elem? (urls_of (drop i ss ++ rest)) 0 ≡ get_elem? (urls_of ss) i
rotated i [] rest h = absurd (omega arith)
rotated zero (s ∷ ss) rest h = refl
rotated (suc i) (s ∷ ss) rest h = rotated i ss rest (omega arith)

module _ (urls : String → List String) where
  -- `n` calls of `getEndpoints` for one network, at the given times.
  pub calls : String → Failover → List ℕ → Failover
  calls network fo [] = fo
  calls network fo (t ∷ ts) = calls network (get_endpoints urls t network fo).1 ts

  -- No endpoint of the network is degraded.
  abbrev pub IsUp : String → Failover → Type 0
  IsUp network fo = all (λ s. s.degraded_until == 0) (states_of urls network fo) ≡ true

  recover_up :
      (now : ℕ) (ss : List EndpointState)
      → all (λ s. s.degraded_until == 0) ss ≡ true
      → map (recover now) ss ≡ ss
  unfolding recover
  recover_up now [] h = refl
  recover_up now (s ∷ ss) h = ground (arith, recover_up now ss)

  healthy_up :
      (now : ℕ) (ss : List EndpointState)
      → all (λ s. s.degraded_until == 0) ss ≡ true
      → select (healthy_at now) ss ≡ ss
  healthy_up now [] h = refl
  healthy_up now (s ∷ ss) h = ground (arith, healthy_up now ss)

  degraded_up :
      (now : ℕ) (ss : List EndpointState)
      → all (λ s. s.degraded_until == 0) ss ≡ true
      → select (degraded_at now) ss ≡ []
  degraded_up now [] h = refl
  degraded_up now (s ∷ ss) h = ground (arith, degraded_up now ss)

  states_of-get_up :
      (t : ℕ) (network : String) (fo : Failover)
      → IsUp network fo
      → states_of urls network (get_endpoints urls t network fo).1 ≡ states_of urls network fo
  states_of-get_up t network fo h = rw (
    states_of-get urls t network network fo,
    str_eq_self network,
    recover_up t (states_of urls network fo) h,
  )

  index-get_up :
      (t : ℕ) (network : String) (fo : Failover)
      → IsUp network fo
      → 1 < length (states_of urls network fo)
      → start_index network (get_endpoints urls t network fo).1
        ≡ (start_index network fo + 1) % length (states_of urls network fo)
  unfolding get_endpoints
  index-get_up t network fo h two =
      rw
        (
          get_or_init-states urls network fo,
          healthy_up t (states_of urls network fo) h,
          lt→ltb 1 (length (states_of urls network fo)) two,
        )
        (start_index-write network _ _ (get_or_init urls network fo).1.round_robin_indices
          ∙ ap (λ i. (i + 1) % length (states_of urls network fo))
              (start_index-init urls network fo))

  states_of-calls :
      (network : String) (ts : List ℕ) (fo : Failover)
      → IsUp network fo
      → states_of urls network (calls network fo ts) ≡ states_of urls network fo
  unfolding calls
  states_of-calls network [] fo h = refl
  states_of-calls network (t ∷ ts) fo h =
      let same = states_of-get_up t network fo h in
      states_of-calls network ts (get_endpoints urls t network fo).1 (rw same h) ∙ same

  index-calls :
      (network : String) (ts : List ℕ) (fo : Failover)
      → IsUp network fo
      → 1 < length (states_of urls network fo)
      → start_index network fo < length (states_of urls network fo)
      → start_index network (calls network fo ts)
        ≡ (start_index network fo + length ts) % length (states_of urls network fo)
  unfolding calls
  index-calls network [] fo h two i = sym (
      ap (λ x. x % length (states_of urls network fo)) (add-zero (start_index network fo))
      ∙ mod-eq_of_lt i)
  index-calls network (t ∷ ts) fo h two i =
      let same = states_of-get_up t network fo h in
      let next = index-get_up t network fo h two in
      index-calls network ts (get_endpoints urls t network fo).1 (rw same h) (rw same two)
        (rw (same, next) (mod-lt _ (omega arith)))
      ∙ rw (same, next)
          (mod_step (start_index network fo) (length ts) (length (states_of urls network fo)))

  rotated_head :
      (now i : ℕ) (ss : List EndpointState)
      → all (λ s. s.degraded_until == 0) ss ≡ true
      → 1 < length ss
      → i < length ss
      → get_elem? (urls_of (ordered now i ss)) 0 ≡ get_elem? (urls_of ss) i
  unfolding ordered
  rotated_head now i ss h two k =
      rw (healthy_up now ss h, degraded_up now ss h, lt→ltb 1 (length ss) two)
        (ap (λ l. get_elem? (urls_of l) 0) (append_assoc (drop i ss) (take i ss) [])
          ∙ rotated i ss (take i ss ++ []) k)

  -- While no endpoint of a network with at least two endpoints is degraded, the calls take the
  -- endpoints in turn: after `k` calls the next one begins with the endpoint `k` places, cyclically,
  -- behind that with which the first of them began.
  pub get_endpoints-round_robin :
      (network : String) (fo : Failover) (ts : List ℕ) (now : ℕ)
      → IsUp network fo
      → 1 < length (states_of urls network fo)
      → start_index network fo < length (states_of urls network fo)
      → get_elem? (get_endpoints urls now network (calls network fo ts)).0 0
        ≡ get_elem?
            (urls_of (states_of urls network fo))
            ((start_index network fo + length ts) % length (states_of urls network fo))
  get_endpoints-round_robin network fo ts now h two i =
      rw
        (
          get_endpoints-ordered urls now network (calls network fo ts),
          states_of-calls network ts fo h,
          index-calls network ts fo h two i,
        )
        (rotated_head now _ (states_of urls network fo) h two (mod-lt _ (omega arith)))

find-update :
    (f : EndpointState → EndpointState) (url : String) (ss : List EndpointState) (s : EndpointState)
    → ((x : EndpointState) → (f x).url ≡ x.url)
    → find_state url ss ≡ some s
    → find_state url (update_state f url ss) ≡ some (f s)
unfolding update_state
find-update f url [] s same h = cc
find-update f url (x ∷ ss) s same h = ground (arith, same x, find-update f url ss s same)

module _ (urls : String → List String) (cooldown_ms : ℕ) where
  -- A failure of a known endpoint is counted, and answered by whether the count has reached three.
  -- If it has, the endpoint is degraded up to and at the time `now + cooldown_ms`, and healthy
  -- after it; if it has not, the endpoint is as healthy as it was.
  pub record_failure-degrades :
      (network url : String) (fo : Failover) (s : EndpointState) (now later : ℕ)
      → find_state url (states_of urls network fo) ≡ some s
      → 0 < now
      → let (answer, fo') = record_failure urls cooldown_ms now network url fo in
        (answer ≡ leb failure_threshold (s.failures + 1))
        × ((s' : EndpointState) × (find_state url (states_of urls network fo') ≡ some s')
            × (s'.failures ≡ s.failures + 1)
            × (degraded_at later s'
                ≡ (if answer then leb later (now + cooldown_ms) else degraded_at later s)))
  unfolding record_failure failed
  record_failure-degrades network url fo s now later h pos = (
    ground (arith, get_or_init-states urls network fo),
    (
      failed cooldown_ms now s,
      rw (states_of-failure urls cooldown_ms now network network url fo, str_eq_self network)
          (find-update (failed cooldown_ms now) url (states_of urls network fo) s (λ x. refl) h),
      refl,
      ground (arith, get_or_init-states urls network fo),
    ),
  )

  -- A success of a known endpoint clears its count, so that it is healthy at every time.
  pub record_success-heals :
      (network url : String) (fo : Failover) (s : EndpointState) (later : ℕ)
      → find_state url (states_of urls network fo) ≡ some s
      → (s' : EndpointState) × (find_state url
            (states_of urls network (record_success urls network url fo))
          ≡ some s')
        × (s'.failures ≡ 0)
        × (healthy_at later s' ≡ true)
  record_success-heals network url fo s later h = (
    record s { failures = 0; degraded_until = 0 },
    rw (states_of-success urls network network url fo, str_eq_self network)
        (find-update _ url (states_of urls network fo) s (λ x. refl) h),
    refl,
    refl,
  )
