-- ===== src/Rpc/Fetch.antt =====
-- apps/api/src/modules/rpc/rpc.service.ts, `fetchWithFailover`: each endpoint in turn, behind its
-- circuit breaker. What an upstream answers, when, and what other requests do to the shared state
-- while the answer is awaited, are arguments: one `Attempt` for each endpoint of the list.
use soroban_dev_console.Shared.{
  ℕ, ◌+◌, String, Bool, true, false, Option, none, some, List, [], ◌∷◌, ltb, if◌then◌else◌,
}
use soroban_dev_console.Breaker
use soroban_dev_console.Breaker.{CircuitBreakerOptions, Registry}
use soroban_dev_console.Failover
use soroban_dev_console.Failover.{Failover}
use soroban_dev_console.Failover.Order

-- The exceptions of `@nestjs/common` that reach this function.
pub data HttpError : Type 0 where
  bad_request payload_too_large gateway_timeout bad_gateway service_unavailable : HttpError

pub data Result {ℓ} (A : Type ℓ) : Type ℓ where
  ok : A → Result A
  err : HttpError → Result A

pub record Attempt {ℓ} (A : Type ℓ) : Type ℓ where
  pub url : String
  pub asked_at : ℕ
  pub reported_at : ℕ
  pub result : Result A
  pub breaker_calls : List (ℕ × Breaker.Call)
  pub failover_calls : List (ℕ × Order.Call)

pub record Shared : Type 0 where
  pub breakers : Registry
  pub failover : Failover

-- Continue with the next endpoint unless it is a client error.
abbrev pub is_client_error : HttpError → Bool
is_client_error bad_request = true
is_client_error payload_too_large = true
is_client_error _ = false

-- The throw behind the loop.
unfoldable pub exhausted : Option HttpError → ℕ → HttpError
exhausted none skipped = if ltb 0 skipped then service_unavailable else bad_gateway
exhausted (some e) skipped = e

module _ {ℓ} {A : Type ℓ} (options : CircuitBreakerOptions) (urls : String → List String)
    (cooldown_ms : ℕ) (network : String) where
  -- The shared state when the answer of an upstream is there.
  unfoldable pub meanwhile : Attempt A → Registry → Failover → Shared
  meanwhile a r fo = record {
    breakers = Breaker.run options r a.breaker_calls;
    failover = Order.run urls cooldown_ms fo a.failover_calls;
  }

  unfoldable pub reported_success : Attempt A → Shared → Shared
  reported_success a s = record {
    breakers = Breaker.record_success a.url s.breakers;
    failover = Failover.record_success urls network a.url s.failover;
  }

  unfoldable pub reported_failure : Attempt A → Shared → Shared
  reported_failure a s = record {
    breakers = Breaker.record_failure options a.reported_at a.url s.breakers;
    failover = (Failover.record_failure urls cooldown_ms a.reported_at network a.url s.failover).1;
  }

  -- The loop: `last` is `lastError`, `skipped` is `skippedOpen`.
  unfoldable pub fetch_from : List (Attempt A) → Option HttpError → ℕ → Shared → Result A × Shared
  fetch_from [] last skipped s = (err (exhausted last skipped), s)
  fetch_from (a ∷ as₁) last skipped s =
      let (admitted, r) = Breaker.can_request options a.asked_at a.url s.breakers in
      let s₁ = meanwhile a r s.failover in
      let skip = fetch_from as₁ last (skipped + 1) (record s { breakers = r }) in
      if admitted
      then elim a.result [
        | ok v ↦ (ok v, reported_success a s₁)
        | err e ↦
            let next = fetch_from as₁ (some e) skipped (reported_failure a s₁) in
            if is_client_error e then (err e, reported_failure a s₁) else next
      ]
      else skip

  unfoldable pub fetch_with_failover : List (Attempt A) → Shared → Result A × Shared
  fetch_with_failover tries s = fetch_from tries none 0 s
