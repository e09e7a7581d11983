-- ===== src/Breaker/Invariant.antt =====
-- apps/api/src/lib/circuit-breaker.ts: when a circuit is open, over any history of calls.
use soroban_dev_console.Shared.{
  ℕ, ◌+◌, ◌≤◌, ◌<◌, String, ◌≡◌, ◌≢◌, refl, true, false, none, some, List, [], ◌∷◌, ◌++◌, map,
  arith, leb, ltb, if◌then◌else◌, lookup, str_eq_self, str_eq, length,
}
use soroban_dev_console.Breaker.{
  CircuitBreakerOptions, Circuit, fresh_circuit, circuit_of, closed, open_state, half_open,
  state_at, failed, Call, can_requests, succeeds, fails, endpoint_of, run,
}
use soroban_dev_console.Breaker.Verdicts.{on_call, endpoint_run, run-endpoint}

module _ (options : CircuitBreakerOptions) where
  open options use {failure_threshold, cooldown_ms}

  -- A circuit is open, or half open, exactly when its failures have reached the threshold, and a
  -- test request is outstanding only then.
  pub record IsValid (c : Circuit) : Type 0 where
    pub opened : c.opened_at ≢ none → failure_threshold ≤ c.failures
    pub reached : c.opened_at ≡ none → c.failures < failure_threshold
    pub tested : c.probing ≡ true → c.opened_at ≢ none

  on_call-IsValid :
      (c : Circuit) (call : ℕ × Call)
      → 0 < failure_threshold
      → IsValid c
      → IsValid (on_call options c call)
  unfolding on_call state_at failed
  on_call-IsValid c (now, can_requests e) h v = ground (arith, v.opened, v.reached, v.tested)
  on_call-IsValid c (now, succeeds e) h v = ground arith
  on_call-IsValid c (now, fails e) h v = ground (arith, v.opened, v.reached, v.tested)

  endpoint_run-IsValid :
      (e : String) (c : Circuit) (cs : List (ℕ × Call))
      → 0 < failure_threshold
      → IsValid c
      → IsValid (endpoint_run options e c cs)
  unfolding endpoint_run
  endpoint_run-IsValid e c [] h v = v
  endpoint_run-IsValid e c (call ∷ cs) h v =
      endpoint_run-IsValid e (if str_eq (endpoint_of call.1) e then on_call options c call else c)
        cs h (ground (arith, v, on_call-IsValid c call h v))

  -- In a registry that starts empty, with a threshold of at least one, after any history of calls
  -- every endpoint's circuit is open or half open exactly when its count of failures has reached
  -- the threshold, and has a test request outstanding only then.
  pub run-IsValid :
      (e : String) (cs : List (ℕ × Call))
      → 0 < failure_threshold
      → IsValid (circuit_of e (run options [] cs))
  unfolding circuit_of lookup
  run-IsValid e cs h =
      rw (run-endpoint options e [] cs) (endpoint_run-IsValid e fresh_circuit cs h (ground arith))

  -- Consecutive failures of the endpoint `e`, at the given times.
  abbrev pub failing : String → List ℕ → List (ℕ × Call)
  failing e ts = map (λ t. (t, fails e)) ts

  failed-IsValid : (c : Circuit) (t : ℕ) → IsValid c → IsValid (failed options t c)
  unfolding failed
  failed-IsValid c t v = ground (arith, v.opened, v.reached, v.tested)

  failed-failures : (c : Circuit) (t : ℕ) → (failed options t c).failures ≡ c.failures + 1
  unfolding failed
  failed-failures c t = refl

  failing_from :
      (e : String) (ts : List ℕ) (t : ℕ) (c : Circuit)
      → IsValid c
      → endpoint_run options e c (failing e (ts ++ t ∷ [])) ≡ record {
        failures = c.failures + length ts + 1;
        opened_at = (if leb failure_threshold (c.failures + length ts + 1) then some t else none);
        probing = false;
      }
  unfolding endpoint_run on_call
  failing_from e [] t c v = unfold failed in ground (arith, str_eq_self e, v.opened, v.reached)
  failing_from e (s ∷ ts) t c v = ground (
    arith,
    str_eq_self e,
    failing_from e ts t (failed options s c) (failed-IsValid c s v),
    failed-failures c s,
  )

  -- In a registry that starts empty, with a threshold of at least one, a run of consecutive
  -- failures of an endpoint that ends at the time `t` leaves it closed if there are fewer failures
  -- than the threshold, and otherwise leaves it open until the cooldown after `t` has passed, half
  -- open from then on.
  pub run-failing :
      (e : String) (ts : List ℕ) (t now : ℕ)
      → 0 < failure_threshold
      → state_at options now (circuit_of e (run options [] (failing e (ts ++ t ∷ [])))) ≡ (
          if ltb (length ts + 1) failure_threshold
          then closed
          else if ltb now (t + cooldown_ms)
          then open_state
          else half_open)
  unfolding circuit_of lookup state_at
  run-failing e ts t now h =
      rw
        (
          run-endpoint options e [] (failing e (ts ++ t ∷ [])),
          failing_from e ts t fresh_circuit (ground arith),
        )
        (ground arith)
