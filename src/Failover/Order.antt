-- ===== src/Failover/Order.antt =====
-- apps/api/src/modules/rpc/rpc-failover.service.ts: the order in which endpoints are tried.
use mathlib.Core.List.{perm_middle, perm_append_comm, map-append}
use mathlib.Core.List.Perm
use soroban_dev_console.Shared.{
  ℕ, String, ◌≡◌, refl, ap, ◌∙◌, Bool, not, none, List, [], ◌∷◌, ◌++◌, map, Perm, arith, ltb,
  if◌then◌else◌, length, select, take, drop, take-drop, str_eq, eq_iff, lookup, insert,
  lookup-insert, Bool-cases, inl, inr,
}
use soroban_dev_console.Failover.{
  EndpointState, Failover, healthy_at, degraded_at, recover, urls_of, update_state, find_state,
  start_index, ordered, fresh_state, states_of, get_or_init, get_endpoints, record_success, failed,
  record_failure,
}

-- The calls of the service, and histories of them.
pub data Call : Type 0 where
  gets : String → Call
  succeeds fails : String → String → Call

module _ (urls : String → List String) (cooldown_ms : ℕ) where
  pub step : Failover → ℕ × Call → Failover
  step fo (now, gets network) = (get_endpoints urls now network fo).1
  step fo (now, succeeds network url) = record_success urls network url fo
  step fo (now, fails network url) = (record_failure urls cooldown_ms now network url fo).1

  pub run : Failover → List (ℕ × Call) → Failover
  run fo [] = fo
  run fo (c ∷ cs) = run (step fo c) cs

abbrev pub no_endpoints : Failover
no_endpoints = record { endpoints = []; round_robin_indices = [] }

degraded_at-not : (now : ℕ) (s : EndpointState) → degraded_at now s ≡ not (healthy_at now s)
degraded_at-not now s = ground arith

split-perm {ℓ} :
    {A : Type ℓ} (p q : A → Bool) (xs : List A)
    → ((x : A) → q x ≡ not (p x))
    → Perm (select p xs ++ select q xs) xs
split-perm p q [] h = Perm.nil
split-perm p q (x ∷ xs) h = elim (Bool-cases (p x)) [
  | inl e ↦ ground (arith, h x, Perm.cons x (split-perm p q xs h))
  | inr e ↦ ground (
    arith,
    h x,
    Perm.trans (perm_middle {a = x} (select p xs) (select q xs))
        (Perm.cons x (split-perm p q xs h)),
  )
]

rotate-perm {ℓ} : {A : Type ℓ} (n : ℕ) (xs : List A) → Perm (drop n xs ++ take n xs) xs
rotate-perm n xs =
    Perm.trans (perm_append_comm (drop n xs) (take n xs)) (rw (take-drop n xs) (Perm.refl xs))

-- The healthy part of the order.
abbrev front : ℕ → ℕ → List EndpointState → List EndpointState
front now start states =
    let healthy = select (healthy_at now) states in
    if ltb 1 (length healthy) then drop start healthy ++ take start healthy else healthy

front-perm :
    (now start : ℕ) (states : List EndpointState)
    → Perm (front now start states) (select (healthy_at now) states)
front-perm now start states = elim (Bool-cases (ltb 1 (length (select (healthy_at now) states)))) [
  | inl e ↦ rw e (rotate-perm start (select (healthy_at now) states))
  | inr e ↦ rw e (Perm.refl (select (healthy_at now) states))
]

ordered-front :
    (now start : ℕ) (states : List EndpointState)
    → ordered now start states ≡ front now start states ++ select (degraded_at now) states
unfolding ordered
ordered-front now start states = ground arith

ordered-perm :
    (now start : ℕ) (states : List EndpointState) → Perm (ordered now start states) states
ordered-perm now start states = rw (ordered-front now start states) (
    Perm.trans
      (Perm.append (front-perm now start states) (Perm.refl (select (degraded_at now) states)))
      (split-perm (healthy_at now) (degraded_at now) states (degraded_at-not now)))

urls_of-update :
    (f : EndpointState → EndpointState) (url : String) (ss : List EndpointState)
    → ((s : EndpointState) → (f s).url ≡ s.url)
    → urls_of (update_state f url ss) ≡ urls_of ss
unfolding update_state
urls_of-update f url [] h = refl
urls_of-update f url (s ∷ ss) h = ground (arith, h s, urls_of-update f url ss h)

urls_of-recover : (now : ℕ) (ss : List EndpointState) → urls_of (map (recover now) ss) ≡ urls_of ss
unfolding recover
urls_of-recover now [] = refl
urls_of-recover now (s ∷ ss) = ground (arith, urls_of-recover now ss)

urls_of-fresh : (us : List String) → urls_of (map fresh_state us) ≡ us
urls_of-fresh [] = refl
urls_of-fresh (u ∷ us) = ap (◌∷◌ u) (urls_of-fresh us)

module _ (urls : String → List String) where
  pub get_or_init-states :
      (network : String) (fo : Failover)
      → (get_or_init urls network fo).0 ≡ states_of urls network fo
  unfolding get_or_init states_of
  get_or_init-states network fo = ground arith

  pub states_of-init :
      (n network : String) (fo : Failover)
      → states_of urls n (get_or_init urls network fo).1 ≡ states_of urls n fo
  unfolding get_or_init states_of
  states_of-init n network fo = ground (
    arith,
    lookup-insert network n (map fresh_state (urls network)) fo.endpoints,
    eq_iff network n,
  )

  pub indices-init :
      (network : String) (fo : Failover)
      → (get_or_init urls network fo).1.round_robin_indices ≡ fo.round_robin_indices
  unfolding get_or_init
  indices-init network fo = ground arith

  -- Every write of the service is such a write to the endpoints of one network.
  states_of-write :
      (n network : String) (ss : List EndpointState) (fo : Failover) (rr : Failover)
      → states_of urls n (record rr { endpoints = insert network ss fo.endpoints })
        ≡ (if str_eq network n then ss else states_of urls n fo)
  unfolding states_of
  states_of-write n network ss fo rr = ground (arith, lookup-insert network n ss fo.endpoints)

  pub states_of-get :
      (now : ℕ) (n network : String) (fo : Failover)
      → states_of urls n (get_endpoints urls now network fo).1 ≡ (
          if str_eq network n
          then map (recover now) (states_of urls network fo)
          else states_of urls n fo)
  unfolding get_endpoints
  states_of-get now n network fo =
      rw (← get_or_init-states network fo, ← states_of-init n network fo)
        (states_of-write n network (map (recover now) (get_or_init urls network fo).0)
          (get_or_init urls network fo).1 (get_endpoints urls now network fo).1)

  pub states_of-success :
      (n network url : String) (fo : Failover)
      → states_of urls n (record_success urls network url fo) ≡ (
          if str_eq network n
          then update_state
              (λ s. record s { failures = 0; degraded_until = 0 })
              url
              (states_of urls network fo)
          else states_of urls n fo)
  unfolding record_success
  states_of-success n network url fo =
      rw (← get_or_init-states network fo, ← states_of-init n network fo)
        (states_of-write n network _ (get_or_init urls network fo).1
          (get_or_init urls network fo).1)

  update_state-missing :
      (f : EndpointState → EndpointState) (url : String) (ss : List EndpointState)
      → find_state url ss ≡ none
      → update_state f url ss ≡ ss
  unfolding update_state
  update_state-missing f url [] h = refl
  update_state-missing f url (s ∷ ss) h = ground (arith, update_state-missing f url ss)

  pub states_of-failure :
      (cooldown_ms now : ℕ) (n network url : String) (fo : Failover)
      → states_of urls n (record_failure urls cooldown_ms now network url fo).1 ≡ (
          if str_eq network n
          then update_state (failed cooldown_ms now) url (states_of urls network fo)
          else states_of urls n fo)
  unfolding record_failure
  states_of-failure cooldown_ms now n network url fo = ground (
    arith,
    get_or_init-states network fo,
    states_of-init n network fo,
    eq_iff network n,
    update_state-missing (failed cooldown_ms now) url (states_of urls network fo),
    states_of-write n network
        (update_state (failed cooldown_ms now) url (states_of urls network fo))
        (get_or_init urls network fo).1 (get_or_init urls network fo).1,
  )

module _ (urls : String → List String) where
  pub start_index-init :
      (network : String) (fo : Failover)
      → start_index network (get_or_init urls network fo).1 ≡ start_index network fo
  unfolding start_index
  start_index-init network fo = rw (start_index, indices-init urls network fo)

  pub get_endpoints-ordered :
      (now : ℕ) (network : String) (fo : Failover)
      → (get_endpoints urls now network fo).0
        ≡ urls_of (ordered now (start_index network fo) (states_of urls network fo))
  unfolding get_endpoints
  get_endpoints-ordered now network fo =
      rw (start_index-init network fo, get_or_init-states urls network fo)

module _ (urls : String → List String) (cooldown_ms : ℕ) where
  urls_of-step :
      (network : String) (fo : Failover) (call : ℕ × Call)
      → urls_of (states_of urls network (step urls cooldown_ms fo call))
        ≡ urls_of (states_of urls network fo)
  unfolding step failed
  urls_of-step network fo (now, gets n) = ground (
    arith,
    states_of-get urls now network n fo,
    eq_iff n network,
    urls_of-recover now (states_of urls network fo),
  )
  urls_of-step network fo (now, succeeds n url) = ground (
    arith,
    states_of-success urls network n url fo,
    eq_iff n network,
    urls_of-update (λ s. record s { failures = 0; degraded_until = 0 }) url
        (states_of urls network fo) (λ s. refl),
  )
  urls_of-step network fo (now, fails n url) = ground (
    arith,
    states_of-failure urls cooldown_ms now network n url fo,
    eq_iff n network,
    urls_of-update (failed cooldown_ms now) url (states_of urls network fo) (λ s. refl),
  )

  urls_of-none : (network : String) → urls_of (states_of urls network no_endpoints) ≡ urls network
  unfolding states_of lookup
  urls_of-none network = urls_of-fresh (urls network)

  urls_of-run :
      (network : String) (fo : Failover) (cs : List (ℕ × Call))
      → urls_of (states_of urls network (run urls cooldown_ms fo cs))
        ≡ urls_of (states_of urls network fo)
  unfolding run
  urls_of-run network fo [] = refl
  urls_of-run network fo (c ∷ cs) =
      urls_of-run network (step urls cooldown_ms fo c) cs ∙ urls_of-step network fo c

  -- After any history of the service, `get_endpoints` returns every url that is configured for the
  -- network, as often as it is configured, and nothing else.
  pub get_endpoints-perm :
      (network : String) (now : ℕ) (cs : List (ℕ × Call))
      → Perm
          (get_endpoints urls now network (run urls cooldown_ms no_endpoints cs)).0
          (urls network)
  get_endpoints-perm network now cs =
      let fo = run urls cooldown_ms no_endpoints cs in
      rw (get_endpoints-ordered urls now network fo) (
        Perm.trans
          (Perm.map (λ s. s.url)
            (ordered-perm now (start_index network fo) (states_of urls network fo)))
          (rw (urls_of-run network no_endpoints cs, urls_of-none network)
            (Perm.refl (urls network))))

module _ (urls : String → List String) where
  -- The urls of the endpoints that are healthy at the time of the call come first, in some order,
  -- and those of the degraded ones after them, in the configured order.
  pub get_endpoints-healthy_first :
      (network : String) (now : ℕ) (fo : Failover)
      → let states = states_of urls network fo in
        (healthy : List EndpointState) × Perm healthy (select (healthy_at now) states)
        × ((get_endpoints urls now network fo).0
            ≡ urls_of healthy ++ urls_of (select (degraded_at now) states))
  get_endpoints-healthy_first network now fo =
      let states = states_of urls network fo in
      let start = start_index network fo in
      (
        front now start states,
        front-perm now start states,
        get_endpoints-ordered urls now network fo
            ∙ ap urls_of (ordered-front now start states)
            ∙ map-append (λ s. s.url) (front now start states) (select (degraded_at now) states),
      )
