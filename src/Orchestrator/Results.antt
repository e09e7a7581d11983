-- ===== src/Orchestrator/Results.antt =====
-- apps/web/lib/tx-orchestrator.ts, `orchestrateTx`: when success is reported.
use soroban_dev_console.Shared.{
  ℕ, zero, suc, ◌+◌, ◌≤◌, ◌<◌, ◌≡◌, ◌⊎◌, inl, inr, sym, ap, ◌∙◌, String, true, false, Option, none,
  some, List, [], ◌∷◌, ◌++◌, str_eq, arith, Bool-cases, Option-cases,
}
use soroban_dev_console.Orchestrator.{
  TxStatus, simulating, awaiting_signature, submitting, polling, success, Reply, returned, thrown,
  Reply-cases, Settlement-cases, Simulated, Submitted, Polled, confirmed, unsettled, Replies,
  OrchestrationOptions, TxResult, poll_api, poll_direct, conclude, submit, sign_and_submit,
  orchestrate_tx,
}

-- A reply of these, in a round from `first` on and before `last`, says that the transaction stands.
abbrev pub ConfirmedIn : (ℕ → Reply Polled) → ℕ → ℕ → Type 0
ConfirmedIn replies first last =
    (i : ℕ) × (p : Polled) × (first ≤ i)
    × (i < last)
    × (replies i ≡ returned p)
    × (p.settlement ≡ confirmed)

ConfirmedIn-later :
    (replies : ℕ → Reply Polled) (round left : ℕ)
    → ConfirmedIn replies (round + 1) (round + 1 + left)
    → ConfirmedIn replies round (round + suc left)
ConfirmedIn-later replies round left (i, p, low, high, reply, settled) =
    (i, p, omega (arith, low), omega (arith, high), reply, settled)

ConfirmedIn-start :
    (replies : ℕ → Reply Polled) (n : ℕ) → ConfirmedIn replies 0 (0 + n) → ConfirmedIn replies 0 n
ConfirmedIn-start replies n (i, p, low, high, reply, settled) =
    (i, p, low, omega (arith, high), reply, settled)

poll_api-ConfirmedIn :
    (api : ℕ → Reply Polled) (left round : ℕ) (p : Polled)
    → poll_api api left round ≡ returned p
    → p.settlement ≡ confirmed
    → ConfirmedIn api round (round + left)
unfolding poll_api
poll_api-ConfirmedIn api zero round p h s = absurd (ground (arith, h))
poll_api-ConfirmedIn api (suc left) round p h s = elim (Reply-cases (api round)) [
  | inr (message, broken) ↦ absurd (ground (arith, broken, h))
  | inl (q, reply) ↦ elim (Settlement-cases q.settlement) [
    | inl yes_settled ↦ (round, q, omega arith, omega arith, reply, yes_settled)
    | inr (inl no_settled) ↦
        let same : returned q ≡ returned p = ground (arith, reply, no_settled, h) in
        absurd (ground (arith, same, no_settled, s))
    | inr (inr not_yet) ↦
        ConfirmedIn-later api round left
          (poll_api-ConfirmedIn api left (round + 1) p (ground (arith, reply, not_yet, h)) s)
  ]
]

module _ {ℓ} {N : Type ℓ} where
  -- A result of success, its hash and the statuses up to it.
  abbrev pub Succeeds :
      (ℕ → Reply Polled) → ℕ → ℕ → String → List TxStatus → TxResult N × List TxStatus → Type 0
  Succeeds replies first last hash seen out =
      ConfirmedIn replies first last × (out.0.hash ≡ some hash) × (out.1 ≡ seen ++ success ∷ [])

  poll_direct-Succeeds :
      (direct : ℕ → Reply Polled) (left round : ℕ) (hash : String) (simulation : N)
      (seen : List TxStatus)
      → (poll_direct direct left round hash simulation seen).0.is_success ≡ true
      → Succeeds direct round
          (round + left)
          hash
          seen
          (poll_direct direct left round hash simulation seen)
  unfolding poll_direct
  poll_direct-Succeeds direct zero round hash simulation seen h = absurd (ground (arith, h))
  poll_direct-Succeeds direct (suc left) round hash simulation seen h =
      elim (Reply-cases (direct round)) [
        | inr (message, broken) ↦ absurd (ground (arith, broken, h))
        | inl (q, reply) ↦ elim (Settlement-cases q.settlement) [
          | inl yes_settled ↦ (
            (round, q, omega arith, omega arith, reply, yes_settled),
            ground (arith, reply, yes_settled),
            ground (arith, reply, yes_settled),
          )
          | inr (inl no_settled) ↦ absurd (ground (arith, reply, no_settled, h))
          | inr (inr not_yet) ↦
              let next : poll_direct direct (suc left) round hash simulation seen
                  ≡ poll_direct direct left (round + 1) hash simulation seen =
                ground (arith, reply, not_yet) in
              let (there, hashed, traced) =
                poll_direct-Succeeds direct left (round + 1) hash simulation seen
                  (ap (λ o. o.0.is_success) (sym next) ∙ h) in
              (
                ConfirmedIn-later direct round left there,
                ap (λ o. o.0.hash) next ∙ hashed,
                ap (λ o. o.1) next ∙ traced,
              )
        ]
      ]

  conclude-Succeeds :
      (options : OrchestrationOptions) (r : Replies N) (hash : String) (simulation : N)
      (seen : List TxStatus)
      → let out =
          conclude options r hash simulation (poll_api r.api options.max_poll_attempts 0) seen in
        out.0.is_success ≡ true
        → (ConfirmedIn r.api 0 options.max_poll_attempts
            ⊎ ConfirmedIn r.direct 0 options.max_poll_attempts)
          × (out.0.hash ≡ some hash)
          × (out.1 ≡ seen ++ success ∷ [])
  unfolding conclude
  conclude-Succeeds options r hash simulation seen h =
      elim (Reply-cases (poll_api r.api options.max_poll_attempts 0)) [
        | inl (p, ended) ↦ elim (Settlement-cases p.settlement) [
          | inl yes_settled ↦ (
            inl (
                ConfirmedIn-start r.api options.max_poll_attempts
                  (poll_api-ConfirmedIn r.api options.max_poll_attempts 0 p ended yes_settled)),
            ground (arith, ended, yes_settled),
            ground (arith, ended, yes_settled),
          )
          | inr (inl no_settled) ↦ absurd (ground (arith, ended, no_settled, h))
          | inr (inr not_yet) ↦ absurd (ground (arith, ended, not_yet, h))
        ]
        | inr (message, broken) ↦
            let direct : conclude options r hash simulation
                  (poll_api r.api options.max_poll_attempts 0) seen
                ≡ poll_direct r.direct options.max_poll_attempts 0 hash simulation seen =
              ground (arith, broken) in
            let (there, hashed, traced) =
              poll_direct-Succeeds r.direct options.max_poll_attempts 0 hash simulation seen
                (ap (λ o. o.0.is_success) (sym direct) ∙ h) in
            (
              inr (ConfirmedIn-start r.direct options.max_poll_attempts there),
              ap (λ o. o.0.hash) direct ∙ hashed,
              ap (λ o. o.1) direct ∙ traced,
            )
      ]

  -- What success means: the transaction was submitted and taken, and a poll said that it stands.
  abbrev pub IsConfirmed :
      OrchestrationOptions → Replies N → List TxStatus → TxResult N × List TxStatus → Type 0
  IsConfirmed options r seen out =
      (s : Submitted) × (r.submission ≡ returned s)
      × (str_eq s.status "PENDING" ≡ true)
      × (ConfirmedIn r.api 0 options.max_poll_attempts
          ⊎ ConfirmedIn r.direct 0 options.max_poll_attempts)
      × (out.0.hash ≡ some s.hash)
      × (out.1 ≡ seen ++ success ∷ [])

  submit-IsConfirmed :
      (options : OrchestrationOptions) (r : Replies N) (simulation : N) (seen : List TxStatus)
      → (submit options r simulation seen).0.is_success ≡ true
      → IsConfirmed options r (seen ++ submitting ∷ polling ∷ []) (submit options r simulation seen)
  unfolding submit
  submit-IsConfirmed options r simulation seen h = elim (Reply-cases r.submission) [
    | inr (message, broken) ↦ absurd (ground (arith, broken, h))
    | inl (s, reply) ↦ elim (Bool-cases (str_eq s.status "PENDING")) [
      | inr refused ↦ absurd (ground (arith, reply, refused, h))
      | inl pending ↦
          let seen' = seen ++ submitting ∷ polling ∷ [] in
          let next : submit options r simulation seen
              ≡ conclude options r s.hash simulation (poll_api r.api options.max_poll_attempts 0)
                  seen' =
            ground (arith, reply, pending) in
          let (there, hashed, traced) =
            conclude-Succeeds options r s.hash simulation seen'
              (ap (λ o. o.0.is_success) (sym next) ∙ h) in
          (s, reply, pending, there, ap (λ o. o.0.hash) next ∙ hashed, ap (λ o. o.1) next ∙ traced)
    ]
  ]

  sign-IsConfirmed :
      (options : OrchestrationOptions) (r : Replies N) (simulation : N) (seen : List TxStatus)
      → (sign_and_submit options r simulation seen).0.is_success ≡ true
      → IsConfirmed options r
          ((seen ++ awaiting_signature ∷ []) ++ submitting ∷ polling ∷ [])
          (sign_and_submit options r simulation seen)
  unfolding sign_and_submit
  sign-IsConfirmed options r simulation seen h = elim (Reply-cases r.preparation) [
    | inr (message, broken) ↦ absurd (ground (arith, broken, h))
    | inl (prepared, reply) ↦ elim (Reply-cases r.signature) [
      | inr (message, refused) ↦ absurd (ground (arith, reply, refused, h))
      | inl (signed, signature) ↦
          let next : sign_and_submit options r simulation seen
              ≡ submit options r simulation (seen ++ awaiting_signature ∷ []) =
            ground (arith, reply, signature) in
          rw next (
            submit-IsConfirmed options r simulation (seen ++ awaiting_signature ∷ [])
              (ap (λ o. o.0.is_success) (sym next) ∙ h))
    ]
  ]

  -- Where a transaction is not only simulated, success is reported only if it was submitted, the
  -- network has taken it, and one of the polls of the API or of the network, within the number of
  -- attempts, said that it stands; the hash is that of the submission, and the statuses that the
  -- callback has got are those of the five stages, in order, each once.
  pub orchestrate_tx-IsConfirmed :
      (options : OrchestrationOptions) (r : Replies N)
      → options.simulate_only ≡ false
      → (orchestrate_tx options r).0.is_success ≡ true
      → IsConfirmed options r
          (simulating ∷ awaiting_signature ∷ submitting ∷ polling ∷ [])
          (orchestrate_tx options r)
  unfolding orchestrate_tx
  orchestrate_tx-IsConfirmed options r all h = elim (Reply-cases r.simulation) [
    | inr (message, broken) ↦ absurd (ground (arith, broken, h))
    | inl (s, reply) ↦ elim (Option-cases s.failure) [
      | inr (message, wrong) ↦ absurd (ground (arith, reply, all, wrong, h))
      | inl fine ↦
          let next : orchestrate_tx options r
              ≡ sign_and_submit options r s.normalized (simulating ∷ []) =
            ground (arith, reply, all, fine) in
          rw next (
            sign-IsConfirmed options r s.normalized (simulating ∷ [])
              (ap (λ o. o.0.is_success) (sym next) ∙ h))
    ]
  ]

  -- Earlier polls of the network are undecided, and the one of this round says that it stands.
  poll_direct-settles :
      (direct : ℕ → Reply Polled) (left round k : ℕ) (p : Polled) (hash : String) (simulation : N)
      (seen : List TxStatus)
      → k < left
      → ((i : ℕ)
          → i < k
          → (q : Polled) × (direct (round + i) ≡ returned q) × (q.settlement ≡ unsettled))
      → direct (round + k) ≡ returned p
      → p.settlement ≡ confirmed
      → (poll_direct direct left round hash simulation seen).0.is_success ≡ true
  unfolding poll_direct
  poll_direct-settles direct zero round k p hash simulation seen h before now s =
      absurd (omega (arith, h))
  poll_direct-settles direct (suc left) round zero p hash simulation seen h before now s =
      let e : round + 0 ≡ round = omega arith in
      let here : direct round ≡ returned p = ap direct (sym e) ∙ now in ground (arith, here, s)
  poll_direct-settles direct (suc left) round (suc k) p hash simulation seen h before now s =
      let (q, reply, not_yet) = before 0 (omega arith) in
      let e : round + 0 ≡ round = omega arith in
      let here : direct round ≡ returned q = ap direct (sym e) ∙ reply in
      let step : (i : ℕ) → round + 1 + i ≡ round + suc i = λ i. omega arith in
      let later =
        poll_direct-settles direct left (round + 1) k p hash simulation seen (omega (arith, h))
          (λ i low.
            let (q', reply', not_yet') = before (suc i) (omega (arith, low)) in
            (q', ap direct (step i) ∙ reply', not_yet'))
          (ap direct (step k) ∙ now) s in
      ground (arith, here, not_yet, later)

  -- When the simulation succeeds, the wallet signs, the network takes the transaction and the API
  -- gives no final status, success is reported as soon as a poll of the network, within the number
  -- of attempts, says that the transaction stands, after any number of undecided ones.
  pub orchestrate_tx-settles :
      (options : OrchestrationOptions) (r : Replies N) (s : Simulated N) (sub : Submitted)
      (message : Option String) (k : ℕ) (p : Polled)
      → options.simulate_only ≡ false
      → r.simulation ≡ returned s
      → s.failure ≡ none
      → r.preparation ≡ returned tt
      → r.signature ≡ returned tt
      → r.submission ≡ returned sub
      → str_eq sub.status "PENDING" ≡ true
      → poll_api r.api options.max_poll_attempts 0 ≡ thrown message
      → k < options.max_poll_attempts
      → ((i : ℕ)
          → i < k
          → (q : Polled) × (r.direct (0 + i) ≡ returned q) × (q.settlement ≡ unsettled))
      → r.direct (0 + k) ≡ returned p
      → p.settlement ≡ confirmed
      → (orchestrate_tx options r).0.is_success ≡ true
  unfolding orchestrate_tx sign_and_submit submit conclude
  orchestrate_tx-settles options r s sub message k p all sim fine prep sign took pending silent low
        before now settled =
      let done =
        poll_direct-settles r.direct options.max_poll_attempts 0 k p sub.hash s.normalized
          (simulating ∷ awaiting_signature ∷ submitting ∷ polling ∷ []) low before now settled in
      ground (arith, all, sim, fine, prep, sign, took, pending, silent, done)
