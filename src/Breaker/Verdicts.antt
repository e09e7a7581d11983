-- ===== src/Breaker/Verdicts.antt =====
-- apps/api/src/lib/circuit-breaker.ts: the registry against one small machine for each endpoint.
use soroban_dev_console.Shared.{
  ℕ, String, ◌≡◌, refl, Bool, true, false, List, [], ◌∷◌, arith, if◌then◌else◌, insert,
  lookup-insert, str_eq_self, str_eq, eq_iff,
}
use soroban_dev_console.Breaker.{
  closed, open_state, half_open, CircuitBreakerOptions, Circuit, Registry, fresh_circuit,
  circuit_of, get, state_at, can_request, failed, record_failure, record_success, Call,
  can_requests, succeeds, fails, endpoint_of, step, run,
}

-- What the registry promises for one endpoint.
module _ (options : CircuitBreakerOptions) where
  abbrev pub admits : ℕ → Circuit → Bool
  admits now c = elim (state_at options now c) [
    | closed ↦ true
    | open_state ↦ false
    | half_open ↦ if c.probing then false else true
  ]

  abbrev pub asked : ℕ → Circuit → Circuit
  asked now c = elim (state_at options now c) [
    | closed ↦ c
    | open_state ↦ c
    | half_open ↦ if c.probing then c else record c { probing = true }
  ]

  unfoldable pub on_call : Circuit → ℕ × Call → Circuit
  on_call c (now, can_requests e) = asked now c
  on_call c (now, succeeds e) = fresh_circuit
  on_call c (now, fails e) = failed options now c

  -- The calls of a history that name the endpoint `e`, one after another.
  unfoldable pub endpoint_run : String → Circuit → List (ℕ × Call) → Circuit
  endpoint_run e c [] = c
  endpoint_run e c (call ∷ cs) =
      endpoint_run e (if str_eq (endpoint_of call.1) e then on_call c call else c) cs

circuit_of-insert :
    (e j : String) (c : Circuit) (r : Registry)
    → circuit_of j (insert e c r) ≡ (if str_eq e j then c else circuit_of j r)
unfolding circuit_of
circuit_of-insert e j c r = ground (arith, lookup-insert e j c r)

get_lem : (e : String) (r : Registry) → (get e r).0 ≡ circuit_of e r
unfolding get circuit_of
get_lem e r = ground arith

circuit_of-get : (e j : String) (r : Registry) → circuit_of j (get e r).1 ≡ circuit_of j r
unfolding get circuit_of
circuit_of-get e j r = ground (arith, lookup-insert e j fresh_circuit r, eq_iff e j)

module _ (options : CircuitBreakerOptions) where
  pub can_request-admits :
      (now : ℕ) (e : String) (r : Registry)
      → (can_request options now e r).0 ≡ admits options now (circuit_of e r)
  unfolding can_request circuit_of
  can_request-admits now e r = ground (arith, lookup-insert e e fresh_circuit r, str_eq_self e)

  pub circuit_of-can_request :
      (now : ℕ) (e j : String) (r : Registry)
      → circuit_of j (can_request options now e r).1
        ≡ (if str_eq e j then asked options now (circuit_of e r) else circuit_of j r)
  unfolding can_request circuit_of
  circuit_of-can_request now e j r = ground (
    arith,
    lookup-insert e e fresh_circuit r,
    lookup-insert e j fresh_circuit r,
    lookup-insert e j (record (circuit_of e r) { probing = true }) r,
    str_eq_self e,
    eq_iff e j,
  )

  pub circuit_of-failure :
      (now : ℕ) (e j : String) (r : Registry)
      → circuit_of j (record_failure options now e r)
        ≡ (if str_eq e j then failed options now (circuit_of e r) else circuit_of j r)
  unfolding record_failure
  circuit_of-failure now e j r = ground (
    arith,
    circuit_of-insert e j (failed options now (get e r).0) (get e r).1,
    get_lem e r,
    circuit_of-get e j r,
  )

  pub circuit_of-success :
      (e j : String) (r : Registry)
      → circuit_of j (record_success e r) ≡ (if str_eq e j then fresh_circuit else circuit_of j r)
  unfolding record_success
  circuit_of-success e j r =
      ground (arith, circuit_of-insert e j fresh_circuit (get e r).1, circuit_of-get e j r)

  circuit_of-step :
      (e : String) (r : Registry) (call : ℕ × Call)
      → circuit_of e (step options r call) ≡ (
          if str_eq (endpoint_of call.1) e
          then on_call options (circuit_of e r) call
          else circuit_of e r)
  unfolding step on_call
  circuit_of-step e r (now, can_requests j) =
      ground (arith, circuit_of-can_request now j e r, eq_iff j e)
  circuit_of-step e r (now, succeeds j) = ground (arith, circuit_of-success j e r)
  circuit_of-step e r (now, fails j) = ground (arith, circuit_of-failure now j e r, eq_iff j e)

  -- After any history of calls the circuit of an endpoint is what the calls that name the endpoint
  -- make of it, one after another, from the circuit that it had; calls for other endpoints have no
  -- effect on it.
  pub run-endpoint :
      (e : String) (r : Registry) (cs : List (ℕ × Call))
      → circuit_of e (run options r cs) ≡ endpoint_run options e (circuit_of e r) cs
  unfolding run endpoint_run
  run-endpoint e r [] = refl
  run-endpoint e r (call ∷ cs) =
      rw (run-endpoint e (step options r call) cs, circuit_of-step e r call)
