-- ===== src/Rpc/FetchOutcome.antt =====
-- apps/api/src/modules/rpc/rpc.service.ts, `fetchWithFailover`: what it returns.
use mathlib.Core.List.{Memᴰ}
use soroban_dev_console.Shared.{
  ap, ◌∙◌, ℕ, suc, ◌+◌, String, ◌≡◌, ◌≢◌, ◌⊎◌, inl, inr, refl, false, Option, none, some, List, [],
  ◌∷◌, arith, All, str_eq_self, Bool-cases, length,
}
use soroban_dev_console.Breaker
use soroban_dev_console.Breaker.{
  CircuitBreakerOptions, Registry, Circuit, circuit_of, endpoint_of, can_requests, succeeds, fails,
}
use soroban_dev_console.Breaker.Verdicts
use soroban_dev_console.Rpc.Fetch.{
  HttpError, service_unavailable, Result, ok, err, Attempt, Shared, is_client_error, exhausted,
  meanwhile, reported_success, reported_failure, fetch_from, fetch_with_failover,
}
use soroban_dev_console.Rpc.FetchProbe.{refused_lem, Result-cases}

unavailable {ℓ} :
    {A : Type ℓ} (n : ℕ)
    → ◌≡◌ {A = Result A} (err (exhausted none (0 + suc n))) (err service_unavailable)
unfolding exhausted
unavailable n = ground arith

err-ne-ok {ℓ} : {A : Type ℓ} (e : HttpError) (v : A) → ◌≡◌ {A = Result A} (err e) (ok v) → ⊥
err-ne-ok e v h = cc

module _ {ℓ} {A : Type ℓ} (options : CircuitBreakerOptions) (urls : String → List String)
    (cooldown_ms : ℕ) (network : String) where
  abbrev awaited : Attempt A → Shared → Shared
  awaited a s =
      meanwhile options urls cooldown_ms network a
        (Breaker.can_request options a.asked_at a.url s.breakers).1 s.failover

  -- Every endpoint's circuit refuses its attempt.
  abbrev pub AllRefuse : List (Attempt A) → Shared → Type 0
  AllRefuse tries s =
      All (λ a. Verdicts.admits options a.asked_at (circuit_of a.url s.breakers) ≡ false) tries

  refuse_mono :
      (tries : List (Attempt A)) (s s' : Shared)
      → ((e : String) → circuit_of e s'.breakers ≡ circuit_of e s.breakers)
      → AllRefuse tries s
      → AllRefuse tries s'
  refuse_mono [] s s' same h = tt
  refuse_mono (a ∷ rest) s s' same (h, hs) = (rw (same a.url) h, refuse_mono rest s s' same hs)

  refused_by :
      (a : Attempt A) (s : Shared)
      → Verdicts.admits options a.asked_at (circuit_of a.url s.breakers) ≡ false
      → (Breaker.can_request options a.asked_at a.url s.breakers).0 ≡ false
  refused_by a s h = rw (Verdicts.can_request-admits options a.asked_at a.url s.breakers) h

  fetch_from-refused :
      (tries : List (Attempt A)) (last : Option HttpError) (skipped : ℕ) (s : Shared)
      → AllRefuse tries s
      → let (result, s') = fetch_from options urls cooldown_ms network tries last skipped s in
        (result ≡ err (exhausted last (skipped + length tries)))
        × (s'.failover ≡ s.failover)
        × ((e : String) → circuit_of e s'.breakers ≡ circuit_of e s.breakers)
  unfolding fetch_from
  fetch_from-refused [] last skipped s h =
      (ap (λ n. err (exhausted last n)) (omega arith), refl, λ e. refl)
  fetch_from-refused (a ∷ rest) last skipped s (h, hs) =
      let no_entry = refused_by a s h in
      let s₁ : Shared = record s {
        breakers = (Breaker.can_request options a.asked_at a.url s.breakers).1;
      } in
      let same = λ (e : String). refused_lem options e a.url a.asked_at s.breakers no_entry in
      let (result, others, circuits) =
        fetch_from-refused rest last (skipped + 1) s₁ (refuse_mono rest s s₁ same hs) in
      rw no_entry
        (result ∙ ap (λ n. err (exhausted last n)) (omega arith), others, λ e. circuits e ∙ same e)

  -- If the circuits of all endpoints of a non-empty list refuse, the request fails with "service
  -- unavailable", and no circuit and no endpoint state changes.
  pub fetch_with_failover-unavailable :
      (tries : List (Attempt A)) (s : Shared)
      → tries ≢ []
      → AllRefuse tries s
      → let (result, s') = fetch_with_failover options urls cooldown_ms network tries s in
        (result ≡ err service_unavailable)
        × (s'.failover ≡ s.failover)
        × ((e : String) → circuit_of e s'.breakers ≡ circuit_of e s.breakers)
  unfolding fetch_with_failover
  fetch_with_failover-unavailable [] s n h = absurd (n refl)
  fetch_with_failover-unavailable (a ∷ rest) s n h =
      let (result, others, circuits) = fetch_from-refused (a ∷ rest) none 0 s h in
      (result ∙ unavailable (length rest), others, circuits)

  -- The answer `v` is that of one of the attempts, and closes the circuit of its endpoint.
  abbrev pub AnsweredBy : List (Attempt A) → Result A × Shared → A → Type ℓ
  AnsweredBy tries out v =
      (a : Attempt A) × Memᴰ a tries
      × (a.result ≡ ok v)
      × (circuit_of a.url out.1.breakers ≡ Breaker.fresh_circuit)

  AnsweredBy-cons :
      (a : Attempt A) (tries : List (Attempt A)) (out : Result A × Shared) (v : A)
      → AnsweredBy tries out v
      → AnsweredBy (a ∷ tries) out v
  AnsweredBy-cons a tries out v (b, m, e, c) = (b, Memᴰ.tail m, e, c)

  success-closes :
      (a : Attempt A) (s : Shared)
      → circuit_of a.url (reported_success options urls cooldown_ms network a s).breakers
        ≡ Breaker.fresh_circuit
  unfolding reported_success
  success-closes a s =
      ground (arith, Verdicts.circuit_of-success options a.url a.url s.breakers, str_eq_self a.url)

  module _ (a : Attempt A) (rest : List (Attempt A)) (last : Option HttpError) (skipped : ℕ)
      (s : Shared) where
    abbrev head_result : Result A × Shared
    head_result = fetch_from options urls cooldown_ms network (a ∷ rest) last skipped s

    -- What one round of the loop comes to.
    round :
        (head_result
          ≡ fetch_from options urls cooldown_ms network rest last
              (skipped + 1)
              (record s { breakers = (Breaker.can_request options a.asked_at a.url s.breakers).1 }))
        ⊎ ((w : A) × (a.result ≡ ok w)
            × (head_result
                ≡ (ok w, reported_success options urls cooldown_ms network a (awaited a s))))
        ⊎ ((x : HttpError) × (a.result ≡ err x)
            × (head_result
                ≡ (err x, reported_failure options urls cooldown_ms network a (awaited a s))))
        ⊎ ((x : HttpError) × (a.result ≡ err x)
            × (head_result
                ≡ fetch_from options urls cooldown_ms network rest
                    (some x)
                    skipped
                    (reported_failure options urls cooldown_ms network a (awaited a s))))
    unfolding fetch_from
    round = elim (Bool-cases (Breaker.can_request options a.asked_at a.url s.breakers).0) [
      | inr refused ↦ inl (ground arith)
      | inl admitted ↦ elim (Result-cases a.result) [
        | inl (w, is_ok) ↦ inr (inl (w, is_ok, ground arith))
        | inr (x, is_err) ↦ elim (Bool-cases (is_client_error x)) [
          | inl stop ↦ inr (inr (inl (x, is_err, ground arith)))
          | inr more ↦ inr (inr (inr (x, is_err, ground arith)))
        ]
      ]
    ]

  fetch_from-ok :
      (tries : List (Attempt A)) (last : Option HttpError) (skipped : ℕ) (s : Shared) (v : A)
      → (fetch_from options urls cooldown_ms network tries last skipped s).0 ≡ ok v
      → AnsweredBy tries (fetch_from options urls cooldown_ms network tries last skipped s) v
  fetch_from-ok [] last skipped s v h = unfold fetch_from in cc
  fetch_from-ok (a ∷ rest) last skipped s v h = elim (round a rest last skipped s) [
    | inl e ↦
        let later : Shared = record s {
          breakers = (Breaker.can_request options a.asked_at a.url s.breakers).1;
        } in
        rw e (
          AnsweredBy-cons a rest
            (fetch_from options urls cooldown_ms network rest last (skipped + 1) later) v
            (fetch_from-ok rest last (skipped + 1) later v (rw e at h)))
    | inr (inl (w, is_ok, e)) ↦
        rw e (a, Memᴰ.head refl, is_ok ∙ (rw e at h), success-closes a (awaited a s))
    | inr (inr (inl (x, is_err, e))) ↦ absurd (err-ne-ok x v (rw e at h))
    | inr (inr (inr (x, is_err, e))) ↦
        let later : Shared = reported_failure options urls cooldown_ms network a (awaited a s) in
        rw e (
          AnsweredBy-cons a rest
            (fetch_from options urls cooldown_ms network rest (some x) skipped later) v
            (fetch_from-ok rest (some x) skipped later v (rw e at h)))
  ]

  -- An answer that is returned is the answer of one of the attempts, whose endpoint's circuit is
  -- closed then, with no failures counted.
  pub fetch_with_failover-ok :
      (tries : List (Attempt A)) (s : Shared) (v : A)
      → (fetch_with_failover options urls cooldown_ms network tries s).0 ≡ ok v
      → AnsweredBy tries (fetch_with_failover options urls cooldown_ms network tries s) v
  unfolding fetch_with_failover
  fetch_with_failover-ok tries s v h = fetch_from-ok tries none 0 s v h
