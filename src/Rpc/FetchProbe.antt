-- ===== src/Rpc/FetchProbe.antt =====
-- apps/api/src/modules/rpc/rpc.service.ts, `fetchWithFailover`: no test request is left outstanding.

use soroban_dev_console.Shared.{
  ℕ, ◌+◌, String, ◌≡◌, ◌≢◌, ◌⊎◌, inl, inr, refl, Bool, false, Option, none, some, List, [], ◌∷◌,
  arith, if◌then◌else◌, All, str_eq, eq_iff,
}
use soroban_dev_console.Breaker
use soroban_dev_console.Breaker.{
  CircuitBreakerOptions, Registry, Circuit, circuit_of, endpoint_of, can_requests, succeeds, fails,
}
use soroban_dev_console.Breaker.Verdicts
use soroban_dev_console.Rpc.Fetch.{
  HttpError, Result, ok, err, Attempt, Shared, meanwhile, reported_success, reported_failure,
  fetch_from, fetch_with_failover,
}

-- No other request asks the circuit of `e` for admission while an answer is awaited.
abbrev pub Alone : String → List (ℕ × Breaker.Call) → Type 0
Alone e cs = All (λ c. c.1 ≢ can_requests e) cs

module _ (options : CircuitBreakerOptions) where
  alone_call :
      (e : String) (c : Circuit) (call : ℕ × Breaker.Call)
      → call.1 ≢ can_requests e
      → c.probing ≡ false
      → (if str_eq (endpoint_of call.1) e then Verdicts.on_call options c call else c).probing
        ≡ false
  unfolding Verdicts.on_call Breaker.failed
  alone_call e c (now, can_requests j) u h = ground (arith, eq_iff j e)
  alone_call e c (now, succeeds j) u h = ground (arith, eq_iff j e)
  alone_call e c (now, fails j) u h = ground (arith, eq_iff j e)

  endpoint_run-Alone :
      (e : String) (c : Circuit) (cs : List (ℕ × Breaker.Call))
      → Alone e cs
      → c.probing ≡ false
      → (Verdicts.endpoint_run options e c cs).probing ≡ false
  unfolding Verdicts.endpoint_run
  endpoint_run-Alone e c [] u h = h
  endpoint_run-Alone e c (call ∷ cs) (u, us) h =
      endpoint_run-Alone e
        (if str_eq (endpoint_of call.1) e then Verdicts.on_call options c call else c) cs us
        (alone_call e c call u h)

  run-Alone :
      (e : String) (r : Registry) (cs : List (ℕ × Breaker.Call))
      → Alone e cs
      → (circuit_of e r).probing ≡ false
      → (circuit_of e (Breaker.run options r cs)).probing ≡ false
  run-Alone e r cs u h =
      rw (Verdicts.run-endpoint options e r cs) (endpoint_run-Alone e (circuit_of e r) cs u h)

  pub refused_lem :
      (e j : String) (now : ℕ) (r : Registry)
      → (Breaker.can_request options now j r).0 ≡ false
      → circuit_of e (Breaker.can_request options now j r).1 ≡ circuit_of e r
  refused_lem e j now r h = ground (
    arith,
    eq_iff j e,
    Verdicts.can_request-admits options now j r,
    Verdicts.circuit_of-can_request options now j e r,
  )

abbrev pub probing_of : String → Shared → Bool
probing_of e s = (circuit_of e s.breakers).probing

pub Result-cases {ℓ} :
    {A : Type ℓ} (r : Result A) → ((v : A) × (r ≡ ok v)) ⊎ ((e : HttpError) × (r ≡ err e))
Result-cases (ok v) = inl (v, refl)
Result-cases (err e) = inr (e, refl)

module _ {ℓ} {A : Type ℓ} (options : CircuitBreakerOptions) (urls : String → List String)
    (cooldown_ms : ℕ) (network : String) where
  abbrev awaited : Attempt A → Shared → Shared
  awaited a s =
      meanwhile options urls cooldown_ms network a
        (Breaker.can_request options a.asked_at a.url s.breakers).1 s.failover

  awaited-probing :
      (e : String) (a : Attempt A) (s : Shared)
      → str_eq a.url e ≡ false
      → Alone e a.breaker_calls
      → probing_of e s ≡ false
      → probing_of e (awaited a s) ≡ false
  unfolding meanwhile
  awaited-probing e a s other u h =
      run-Alone options e (Breaker.can_request options a.asked_at a.url s.breakers).1
        a.breaker_calls u
        (rw (Verdicts.circuit_of-can_request options a.asked_at a.url e s.breakers, other) h)

  success-probing :
      (e : String) (a : Attempt A) (s : Shared)
      → Alone e a.breaker_calls
      → probing_of e s ≡ false
      → probing_of e (reported_success options urls cooldown_ms network a (awaited a s)) ≡ false
  unfolding reported_success
  success-probing e a s u h = ground (
    arith,
    Verdicts.circuit_of-success options a.url e (awaited a s).breakers,
    awaited-probing e a s,
    h,
    u,
  )

  failure-probing :
      (e : String) (a : Attempt A) (s : Shared)
      → Alone e a.breaker_calls
      → probing_of e s ≡ false
      → probing_of e (reported_failure options urls cooldown_ms network a (awaited a s)) ≡ false
  unfolding reported_failure Breaker.failed
  failure-probing e a s u h = ground (
    arith,
    Verdicts.circuit_of-failure options a.reported_at a.url e (awaited a s).breakers,
    awaited-probing e a s,
    h,
    u,
  )

  fetch_from-probing :
      (e : String) (tries : List (Attempt A)) (last : Option HttpError) (skipped : ℕ) (s : Shared)
      → All (λ a. Alone e a.breaker_calls) tries
      → probing_of e s ≡ false
      → probing_of e (fetch_from options urls cooldown_ms network tries last skipped s).1 ≡ false
  unfolding fetch_from
  fetch_from-probing e [] last skipped s u h = h
  fetch_from-probing e (a ∷ rest) last skipped s (u, us) h =
      let skip =
        fetch_from-probing e rest last (skipped + 1)
          (record s { breakers = (Breaker.can_request options a.asked_at a.url s.breakers).1 })
          us in
      elim (Result-cases a.result) [
        | inl (v, is_ok) ↦ ground (
          arith,
          is_ok,
          refused_lem options e a.url a.asked_at s.breakers,
          success-probing e a s u h,
          skip,
        )
        | inr (x, is_err) ↦ ground (
          arith,
          is_err,
          refused_lem options e a.url a.asked_at s.breakers,
          failure-probing e a s u h,
          skip,
          fetch_from-probing e rest (some x) skipped
              (reported_failure options urls cooldown_ms network a (awaited a s)) us,
        )
      ]

  -- A request leaves no test request outstanding: an endpoint that had none before has none when
  -- the request is answered or has failed, whatever the upstreams answered, if no other request
  -- asks for that endpoint while an answer is awaited.
  pub fetch_with_failover-no_probe :
      (e : String) (tries : List (Attempt A)) (s : Shared)
      → All (λ a. Alone e a.breaker_calls) tries
      → probing_of e s ≡ false
      → probing_of e (fetch_with_failover options urls cooldown_ms network tries s).1 ≡ false
  unfolding fetch_with_failover
  fetch_with_failover-no_probe e tries s u h = fetch_from-probing e tries none 0 s u h
