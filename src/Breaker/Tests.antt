-- ===== src/Breaker/Tests.antt =====
-- apps/api/src/lib/circuit-breaker.ts: the results at concrete histories.
use soroban_dev_console.Shared.{
  ℕ, ◌≡◌, refl, false, List, [], ◌∷◌, arith, some, lookup, eq_iff, ◌≢◌,
}
use soroban_dev_console.Breaker.{
  CircuitBreakerOptions, Registry, Call, can_requests, succeeds, fails, circuit_of, state_at,
  can_request, run,
}
use soroban_dev_console.Breaker.Verdicts.{endpoint_run, run-endpoint}
use soroban_dev_console.Breaker.Invariant.{IsValid, run-IsValid}
use soroban_dev_console.Breaker.Probe.{can_request-one_probe}

abbrev two_failures : CircuitBreakerOptions
two_failures = record { failure_threshold = 2; cooldown_ms = 100 }

abbrev history : List (ℕ × Call)
history = (10, fails "a") ∷ (11, can_requests "b") ∷ (12, fails "a") ∷ (13, succeeds "b") ∷ []

abbrev opened : Registry
opened = ("a", record { failures = 2; opened_at = some 12; probing = false }) ∷ []

run-endpoint_example :
    circuit_of "a" (run two_failures [] history)
    ≡ endpoint_run two_failures "a" (circuit_of "a" []) history
run-endpoint_example = run-endpoint two_failures "a" [] history

run-IsValid_example : IsValid two_failures (circuit_of "a" (run two_failures [] history))
run-IsValid_example = run-IsValid two_failures "a" history (omega arith)

is_not_success : fails "b" ≢ succeeds "a"
is_not_success e = cc

is_not_failure : fails "b" ≢ fails "a"
is_not_failure e = ground (arith, eq_iff "b" "a")

can_request-one_probe_example :
    (can_request two_failures 200 "a"
      (run two_failures (can_request two_failures 112 "a" opened).1 ((150, fails "b") ∷ []))).0
    ≡ false
unfolding circuit_of state_at can_request lookup
can_request-one_probe_example =
    can_request-one_probe two_failures "a" opened 112 200 ((150, fails "b") ∷ []) refl refl
      ((is_not_success, is_not_failure), tt)
