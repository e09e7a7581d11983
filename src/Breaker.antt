-- ===== src/Breaker.antt =====
-- apps/api/src/lib/circuit-breaker.ts: the circuit breakers of the upstream RPC endpoints.
-- The clock is an argument: one reading for each call of a method. Times are milliseconds, and
-- `now - t >= d` is written `t + d ≤ now`, which is the same over the integers.
pub mod Verdicts
pub mod Invariant
pub mod Probe
mod Tests
use soroban_dev_console.Shared.{
  ℕ, ◌+◌, ◌-◌, String, Bool, true, false, ◌||◌, Option, none, some, List, [], ◌∷◌, map, leb,
  if◌then◌else◌, Dict, lookup, insert,
}

pub data CircuitState : Type 0 where
  closed open_state half_open : CircuitState

pub record CircuitBreakerOptions : Type 0 where
  pub failure_threshold : ℕ
  pub cooldown_ms : ℕ

abbrev pub default_circuit_options : CircuitBreakerOptions
default_circuit_options = record { failure_threshold = 5; cooldown_ms = 30000 }

pub record Circuit : Type 0 where
  pub failures : ℕ
  pub opened_at : Option ℕ
  pub probing : Bool

pub record CircuitSnapshot : Type 0 where
  pub endpoint : String
  pub state : CircuitState
  pub consecutive_failures : ℕ
  pub retry_in_ms : ℕ

abbrev pub Registry : Type 0
Registry = Dict Circuit

abbrev pub fresh_circuit : Circuit
fresh_circuit = record { failures = 0; opened_at = none; probing = false }

-- The circuit of an endpoint, a fresh one if the registry has none.
unfoldable pub circuit_of : String → Registry → Circuit
circuit_of endpoint r = elim (lookup endpoint r) [ none ↦ fresh_circuit | some c ↦ c ]

-- `get`: the circuit, and the registry into which a fresh one is written.
unfoldable pub get : String → Registry → Circuit × Registry
get endpoint r = elim (lookup endpoint r) [
  | none ↦ (fresh_circuit, insert endpoint fresh_circuit r)
  | some c ↦ (c, r)
]

module _ (options : CircuitBreakerOptions) where
  -- The test of `getState` on a circuit.
  unfoldable pub state_at : ℕ → Circuit → CircuitState
  state_at now c = elim c.opened_at [
    | none ↦ closed
    | some t ↦ if leb (t + options.cooldown_ms) now then half_open else open_state
  ]

  unfoldable pub get_state : ℕ → String → Registry → CircuitState × Registry
  get_state now endpoint r = let (c, r') = get endpoint r in (state_at now c, r')

  -- The half-open branch of `canRequest`, on the circuit that `get` returns.
  unfoldable pub probe : String → Circuit → Registry → Bool × Registry
  probe endpoint c r =
      if c.probing then (false, r) else (true, insert endpoint (record c { probing = true }) r)

  unfoldable pub can_request : ℕ → String → Registry → Bool × Registry
  unfolding get get_state state_at probe
  can_request now endpoint r =
      let (state, r₁) = get_state now endpoint r in
      elim state [
        | closed ↦ (true, r₁)
        | open_state ↦ (false, r₁)
        | half_open ↦ let (c, r₂) = get endpoint r₁ in probe endpoint c r₂
      ]

  -- The circuit after a failure at the time `now`.
  unfoldable pub failed : ℕ → Circuit → Circuit
  failed now c =
      let n = c.failures + 1 in
      let again : Bool = elim c.opened_at [ none ↦ false | some t ↦ true ] in
      record {
        failures = n;
        opened_at = (if again || leb options.failure_threshold n then some now else c.opened_at);
        probing = false;
      }

  unfoldable pub record_failure : ℕ → String → Registry → Registry
  record_failure now endpoint r = let (c, r₁) = get endpoint r in insert endpoint (failed now c) r₁

  snapshot_entry : ℕ → String × Circuit → CircuitSnapshot
  unfolding state_at
  snapshot_entry now (endpoint, c) = record {
    endpoint = endpoint;
    state = state_at now c;
    consecutive_failures = c.failures;
    retry_in_ms = elim c.opened_at [
      | none ↦ 0
      | some t ↦ if leb (t + options.cooldown_ms) now then 0 else options.cooldown_ms + t - now
    ];
  }

  unfoldable pub snapshot : ℕ → Registry → List CircuitSnapshot
  unfolding snapshot_entry
  snapshot now r = map (snapshot_entry now) r

unfoldable pub record_success : String → Registry → Registry
record_success endpoint r =
    let (c, r₁) = get endpoint r in
    insert endpoint (record c { failures = 0; opened_at = none; probing = false }) r₁

-- The calls of the registry, each at a time, and a history of them.
pub data Call : Type 0 where
  can_requests succeeds fails : String → Call

abbrev pub endpoint_of : Call → String
endpoint_of (can_requests e) = e
endpoint_of (succeeds e) = e
endpoint_of (fails e) = e

module _ (options : CircuitBreakerOptions) where
  pub step : Registry → ℕ × Call → Registry
  step r (now, can_requests e) = (can_request options now e r).1
  step r (now, succeeds e) = record_success e r
  step r (now, fails e) = record_failure options now e r

  unfoldable pub run : Registry → List (ℕ × Call) → Registry
  run r [] = r
  run r (c ∷ cs) = run (step r c) cs
