-- ===== src/Orchestrator/Diagram.antt =====
-- apps/web/lib/tx-orchestrator.ts, `orchestrateTx`: the order of the statuses.
use soroban_dev_console.Shared.{
  ℕ, zero, suc, ◌+◌, ◌≡◌, inl, inr, String, List, [], ◌∷◌, ◌++◌, str_eq, arith, Bool-cases,
  Option-cases,
}
use soroban_dev_console.Orchestrator.{
  TxStatus, idle, simulating, awaiting_signature, submitting, polling, success, error, Reply,
  returned, thrown, Reply-cases, Settlement-cases, Polled, Replies, OrchestrationOptions, poll_api,
  poll_direct, conclude, submit, sign_and_submit, orchestrate_tx,
}

-- The diagram of the statuses.
pub data Next : TxStatus → TxStatus → Type 0 where
  begins : Next idle simulating
  signs : Next simulating awaiting_signature
  submits : Next awaiting_signature submitting
  polls : Next submitting polling
  settles : Next polling success
  simulation_throws : Next simulating error
  signature_throws : Next awaiting_signature error
  submission_throws : Next submitting error
  polling_throws : Next polling error

-- From a status, these follow one after the other.
pub data Trace : TxStatus → List TxStatus → Type 0 where
  ends : (s : TxStatus) → Trace s []
  goes : (s t : TxStatus) (ts : List TxStatus) → Next s t → Trace t ts → Trace s (t ∷ ts)

to_submitting :
    (last : List TxStatus)
    → Trace submitting last
    → Trace idle ((simulating ∷ awaiting_signature ∷ submitting ∷ []) ++ last)
to_submitting last t =
    goes idle simulating _ begins
      (goes simulating awaiting_signature _ signs (goes awaiting_signature submitting _ submits t))

fails_early : Trace idle (simulating ∷ error ∷ [])
fails_early =
    goes idle simulating _ begins (goes simulating error [] simulation_throws (ends error))

to_polling :
    (last : List TxStatus)
    → Trace polling last
    → Trace idle ((simulating ∷ awaiting_signature ∷ submitting ∷ polling ∷ []) ++ last)
to_polling last t = goes idle simulating _ begins (
    goes simulating awaiting_signature _ signs
      (goes awaiting_signature submitting _ submits (goes submitting polling _ polls t)))

abbrev four : List TxStatus
four = simulating ∷ awaiting_signature ∷ submitting ∷ polling ∷ []

stays : Trace idle four
stays = to_polling [] (ends polling)

stands : Trace idle (four ++ success ∷ [])
stands = to_polling (success ∷ []) (goes polling success [] settles (ends success))

breaks : Trace idle (four ++ error ∷ [])
breaks = to_polling (error ∷ []) (goes polling error [] polling_throws (ends error))

module _ {ℓ} {N : Type ℓ} where
  poll_direct-Trace :
      (direct : ℕ → Reply Polled) (left round : ℕ) (hash : String) (simulation : N)
      → Trace idle (poll_direct direct left round hash simulation four).1
  unfolding poll_direct
  poll_direct-Trace direct zero round hash simulation = stays
  poll_direct-Trace direct (suc left) round hash simulation =
      let out = poll_direct direct (suc left) round hash simulation four in
      elim (Reply-cases (direct round)) [
        | inr (message, broken) ↦
            let e : out.1 ≡ four ++ error ∷ [] = ground (arith, broken) in rw e breaks
        | inl (q, reply) ↦ elim (Settlement-cases q.settlement) [
          | inl yes_settled ↦
              let e : out.1 ≡ four ++ success ∷ [] = ground (arith, reply, yes_settled) in
              rw e stands
          | inr (inl no_settled) ↦
              let e : out.1 ≡ four = ground (arith, reply, no_settled) in rw e stays
          | inr (inr not_yet) ↦
              let e : out ≡ poll_direct direct left (round + 1) hash simulation four =
                ground (arith, reply, not_yet) in
              rw e (poll_direct-Trace direct left (round + 1) hash simulation)
        ]
      ]

  conclude-Trace :
      (options : OrchestrationOptions) (r : Replies N) (hash : String) (simulation : N)
      (polled : Reply Polled)
      → Trace idle (conclude options r hash simulation polled four).1
  unfolding conclude
  conclude-Trace options r hash simulation (thrown message) =
      poll_direct-Trace r.direct options.max_poll_attempts 0 hash simulation
  conclude-Trace options r hash simulation (returned p) =
      let out = conclude options r hash simulation (returned p) four in
      elim (Settlement-cases p.settlement) [
        | inl yes_settled ↦
            let e : out.1 ≡ four ++ success ∷ [] = ground (arith, yes_settled) in rw e stands
        | inr (inl no_settled) ↦ let e : out.1 ≡ four = ground (arith, no_settled) in rw e stays
        | inr (inr not_yet) ↦ let e : out.1 ≡ four = ground (arith, not_yet) in rw e stays
      ]

  submit-Trace :
      (options : OrchestrationOptions) (r : Replies N) (simulation : N)
      → Trace idle (submit options r simulation (simulating ∷ awaiting_signature ∷ [])).1
  unfolding submit
  submit-Trace options r simulation =
      let out = submit options r simulation (simulating ∷ awaiting_signature ∷ []) in
      let three = simulating ∷ awaiting_signature ∷ submitting ∷ [] in
      elim (Reply-cases r.submission) [
        | inr (message, broken) ↦
            let e : out.1 ≡ three ++ error ∷ [] = ground (arith, broken) in
            rw e
              (to_submitting (error ∷ []) (goes submitting error [] submission_throws (ends error)))
        | inl (s, reply) ↦ elim (Bool-cases (str_eq s.status "PENDING")) [
          | inr refused ↦
              let e : out.1 ≡ three = ground (arith, reply, refused) in
              rw e (to_submitting [] (ends submitting))
          | inl pending ↦
              let e : out
                  ≡ conclude options r s.hash simulation
                      (poll_api r.api options.max_poll_attempts 0) four =
                ground (arith, reply, pending) in
              rw e (conclude-Trace options r s.hash simulation _)
        ]
      ]

  sign-Trace :
      (options : OrchestrationOptions) (r : Replies N) (simulation : N)
      → Trace idle (sign_and_submit options r simulation (simulating ∷ [])).1
  unfolding sign_and_submit
  sign-Trace options r simulation =
      let out = sign_and_submit options r simulation (simulating ∷ []) in
      elim (Reply-cases r.preparation) [
        | inr (message, broken) ↦
            let e : out.1 ≡ simulating ∷ error ∷ [] = ground (arith, broken) in rw e fails_early
        | inl (prepared, reply) ↦ elim (Reply-cases r.signature) [
          | inr (message, refused) ↦
              let e : out.1 ≡ simulating ∷ awaiting_signature ∷ error ∷ [] =
                ground (arith, reply, refused) in
              rw e (
                goes idle simulating _ begins (
                  goes simulating awaiting_signature _ signs
                    (goes awaiting_signature error [] signature_throws (ends error))))
          | inl (signed, signature) ↦
              let e : out ≡ submit options r simulation (simulating ∷ awaiting_signature ∷ []) =
                ground (arith, reply, signature) in
              rw e (submit-Trace options r simulation)
        ]
      ]

  -- The statuses that the callback gets follow the diagram of the stages from `idle` on: no stage is
  -- left out or comes twice, and nothing comes after `success` or `error`.
  pub orchestrate_tx-Trace :
      (options : OrchestrationOptions) (r : Replies N) → Trace idle (orchestrate_tx options r).1
  unfolding orchestrate_tx
  orchestrate_tx-Trace options r =
      let out = orchestrate_tx options r in
      let alone = goes idle simulating [] begins (ends simulating) in
      elim (Reply-cases r.simulation) [
        | inr (message, broken) ↦
            let e : out.1 ≡ simulating ∷ error ∷ [] = ground (arith, broken) in rw e fails_early
        | inl (s, reply) ↦ elim (Bool-cases options.simulate_only) [
          | inl only ↦ let e : out.1 ≡ simulating ∷ [] = ground (arith, reply, only) in rw e alone
          | inr all ↦ elim (Option-cases s.failure) [
            | inr (message, wrong) ↦
                let e : out.1 ≡ simulating ∷ [] = ground (arith, reply, all, wrong) in rw e alone
            | inl fine ↦
                let e : out ≡ sign_and_submit options r s.normalized (simulating ∷ []) =
                  ground (arith, reply, all, fine) in
                rw e (sign-Trace options r s.normalized)
          ]
        ]
      ]
