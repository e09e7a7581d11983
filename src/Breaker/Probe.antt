-- ===== src/Breaker/Probe.antt =====
-- apps/api/src/lib/circuit-breaker.ts: which requests are let through.
use soroban_dev_console.Shared.{
  ℕ, String, ◌≡◌, ◌≢◌, ◌⊎◌, not, refl, true, false, some, List, [], ◌∷◌, arith, if◌then◌else◌,
  str_eq_self, str_eq, eq_iff, All,
}
use soroban_dev_console.Breaker.{
  CircuitBreakerOptions, Circuit, Registry, closed, open_state, half_open, circuit_of, state_at,
  can_request, Call, can_requests, succeeds, fails, endpoint_of, run,
}
use soroban_dev_console.Breaker.Verdicts.{
  admits, on_call, endpoint_run, run-endpoint, can_request-admits, circuit_of-can_request,
}

-- A history with no report for `e`.
abbrev pub Unreported : String → List (ℕ × Call) → Type 0
Unreported e cs = All (λ c. (c.1 ≢ succeeds e) × (c.1 ≢ fails e)) cs

module _ (options : CircuitBreakerOptions) where
  pending_step :
      (e : String) (c : Circuit) (t : ℕ) (call : ℕ × Call)
      → (call.1 ≢ succeeds e) × (call.1 ≢ fails e)
      → c.opened_at ≡ some t
      → c.probing ≡ true
      → (if str_eq (endpoint_of call.1) e then on_call options c call else c) ≡ c
  unfolding on_call state_at
  pending_step e c t (now, can_requests j) u h p = ground arith
  pending_step e c t (now, succeeds j) u h p = ground (arith, eq_iff j e)
  pending_step e c t (now, fails j) u h p = ground (arith, eq_iff j e)

  endpoint_run-pending :
      (e : String) (c : Circuit) (t : ℕ) (cs : List (ℕ × Call))
      → Unreported e cs
      → c.opened_at ≡ some t
      → c.probing ≡ true
      → endpoint_run options e c cs ≡ c
  unfolding endpoint_run
  endpoint_run-pending e c t [] u h p = refl
  endpoint_run-pending e c t (call ∷ cs) (u, us) h p =
      rw (pending_step e c t call u h p) (endpoint_run-pending e c t cs us h p)

  half_open-opened :
      (now : ℕ) (c : Circuit)
      → state_at options now c ≡ half_open
      → (t : ℕ) × (c.opened_at ≡ some t)
  unfolding state_at
  half_open-opened now c h = ground arith

  granted :
      (e : String) (r : Registry) (now : ℕ)
      → state_at options now (circuit_of e r) ≡ half_open
      → (can_request options now e r).0 ≡ true
      → let c = circuit_of e (can_request options now e r).1 in
        (t : ℕ) × (c.opened_at ≡ some t) × (c.probing ≡ true)
  granted e r now h yes_first = ground (
    arith,
    half_open-opened now (circuit_of e r) h,
    can_request-admits options now e r,
    circuit_of-can_request options now e e r,
    str_eq_self e,
  )

  pending-refused :
      (now t : ℕ) (c : Circuit)
      → c.opened_at ≡ some t
      → c.probing ≡ true
      → admits options now c ≡ false
  unfolding state_at
  pending-refused now t c h p = ground arith

  -- A half-open endpoint lets one test request through: once `can_request` has said yes to it, it
  -- says no at every later call, whatever calls come between and at whatever times, as long as no
  -- success or failure of that endpoint is reported.
  pub can_request-one_probe :
      (e : String) (r : Registry) (now later : ℕ) (cs : List (ℕ × Call))
      → state_at options now (circuit_of e r) ≡ half_open
      → (can_request options now e r).0 ≡ true
      → Unreported e cs
      → (can_request options later e (run options (can_request options now e r).1 cs)).0 ≡ false
  can_request-one_probe e r now later cs h yes_first u =
      let (t, opened, probing) = granted e r now h yes_first in
      rw
        (
          can_request-admits options later e (run options (can_request options now e r).1 cs),
          run-endpoint options e (can_request options now e r).1 cs,
          endpoint_run-pending e (circuit_of e (can_request options now e r).1) t cs u opened
              probing,
        )
        (pending-refused later t (circuit_of e (can_request options now e r).1) opened probing)

  -- A request is let through exactly by the state: always if the circuit is closed, never while it
  -- is open, and if it is half open when no test request is outstanding; the request changes the
  -- circuit only in the last case, by the mark that a test request is outstanding.
  pub can_request-by_state :
      (e : String) (r : Registry) (now : ℕ)
      → let c = circuit_of e r in
        let (answer, r') = can_request options now e r in
        ((state_at options now c ≡ closed) × (answer ≡ true) × (circuit_of e r' ≡ c))
        ⊎ ((state_at options now c ≡ open_state) × (answer ≡ false) × (circuit_of e r' ≡ c))
        ⊎ ((state_at options now c ≡ half_open)
            × (answer ≡ not c.probing)
            × (circuit_of e r' ≡ record c { probing = true }))
  unfolding state_at
  can_request-by_state e r now = ground (
    arith,
    can_request-admits options now e r,
    circuit_of-can_request options now e e r,
    str_eq_self e,
  )
