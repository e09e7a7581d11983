-- ===== src/Orchestrator.antt =====
-- apps/web/lib/tx-orchestrator.ts, `orchestrateTx`, with the polling of apps/web/lib/api/transactions.ts:
-- from the simulation of a transaction to its result. The replies of the network, the wallet and the
-- API are arguments, those to the polls a function of the round; the callback only takes the statuses,
-- which are the second part of the result. Waiting between the polls is left out.
pub mod Watch
pub mod Diagram
pub mod Results
mod Tests
use Prim.Native.String
use soroban_dev_console.Shared.{
  ℕ, zero, suc, ◌+◌, String, Bool, true, false, Option, none, some, List, [], ◌∷◌, ◌++◌, str_eq,
  ◌≡◌, refl, ◌⊎◌, inl, inr, if◌then◌else◌,
}

pub data TxStatus : Type 0 where
  idle simulating awaiting_signature submitting polling success error : TxStatus

-- What a call returns, or the message with which it throws, nothing if that is no `Error`.
pub data Reply {ℓ} (A : Type ℓ) : Type ℓ where
  returned : A → Reply A
  thrown : Option String → Reply A

pub Reply-cases {ℓ} :
    {A : Type ℓ} (reply : Reply A)
    → ((a : A) × (reply ≡ returned a)) ⊎ ((message : Option String) × (reply ≡ thrown message))
Reply-cases (returned a) = inl (a, refl)
Reply-cases (thrown message) = inr (message, refl)

-- The normalized result, and the error of a simulation that failed.
pub record Simulated {ℓ} (N : Type ℓ) : Type ℓ where
  pub normalized : N
  pub failure : Option String

pub record Submitted : Type 0 where
  pub status : String
  pub hash : String

-- Of the statuses of the API `success` and `error` end the polling; of those of the network, `SUCCESS`
-- and `FAILED`.
pub data Settlement : Type 0 where
  confirmed rejected unsettled : Settlement

pub Settlement-cases : (s : Settlement) → (s ≡ confirmed) ⊎ ((s ≡ rejected) ⊎ (s ≡ unsettled))
Settlement-cases confirmed = inl refl
Settlement-cases rejected = inr (inl refl)
Settlement-cases unsettled = inr (inr refl)

pub record Polled : Type 0 where
  pub settlement : Settlement
  pub error_message : Option String
  pub result_xdr : Option String
  pub result_meta_xdr : Option String

pub record Replies {ℓ} (N : Type ℓ) : Type ℓ where
  pub simulation : Reply (Simulated N)
  pub preparation : Reply {0} Unit
  pub signature : Reply {0} Unit
  pub submission : Reply Submitted
  pub api : ℕ → Reply Polled
  pub direct : ℕ → Reply Polled

pub record OrchestrationOptions : Type 0 where
  pub simulate_only : Bool
  pub max_poll_attempts : ℕ

abbrev pub default_options : OrchestrationOptions
default_options = record { simulate_only = false; max_poll_attempts = 20 }

pub record TxResult {ℓ} (N : Type ℓ) : Type ℓ where
  pub is_success : Bool
  pub hash : Option String
  pub simulation : Option N
  pub error_message : Option String
  pub result_meta_xdr : Option String
  pub result_xdr : Option String

-- `pollTransactionStatus`, from a round on and with so many left. It reports each status it gets, and
-- the one that is of interest, success, is that which it returns.
unfoldable pub poll_api : (ℕ → Reply Polled) → ℕ → ℕ → Reply Polled
poll_api api zero round = thrown (some "Transaction polling timed out")
poll_api api (suc left) round =
    let rest = poll_api api left (round + 1) in
    elim (api round) [
      | thrown message ↦ thrown message
      | returned p ↦ elim p.settlement [
        | confirmed ↦ returned p
        | rejected ↦ returned p
        | unsettled ↦ rest
      ]
    ]

abbrev pub or_text : Option String → String → String
or_text none other = other
or_text (some text) other = if str_eq text "" then other else text

module _ {ℓ} {N : Type ℓ} where
  abbrev pub failed : Option String → N → String → Option String → TxResult N
  failed hash simulation message result_xdr = record {
    is_success = false;
    hash = hash;
    simulation = some simulation;
    error_message = some message;
    result_meta_xdr = none;
    result_xdr = result_xdr;
  }

  abbrev pub succeeded : String → N → Option String → TxResult N
  succeeded hash simulation result_meta_xdr = record {
    is_success = true;
    hash = some hash;
    simulation = some simulation;
    error_message = none;
    result_meta_xdr = result_meta_xdr;
    result_xdr = none;
  }

  abbrev pub simulated : N → TxResult N
  simulated simulation = record {
    is_success = true;
    hash = none;
    simulation = some simulation;
    error_message = none;
    result_meta_xdr = none;
    result_xdr = none;
  }

  -- The outer `catch`.
  abbrev pub caught : Option String → List TxStatus → TxResult N × List TxStatus
  caught message seen = (
    record {
      is_success = false;
      hash = none;
      simulation = none;
      error_message = some (elim message [ none ↦ "Unknown error" | some m ↦ m ]);
      result_meta_xdr = none;
      result_xdr = none;
    },
    seen ++ error ∷ [],
  )

  -- The loop that asks the network itself, with so many rounds left.
  unfoldable pub poll_direct :
      (ℕ → Reply Polled) → ℕ → ℕ → String → N → List TxStatus → TxResult N × List TxStatus
  poll_direct direct zero round hash simulation seen =
      (failed (some hash) simulation "Transaction polling timed out" none, seen)
  poll_direct direct (suc left) round hash simulation seen =
      let rest = poll_direct direct left (round + 1) hash simulation seen in
      elim (direct round) [
        | thrown message ↦ caught message seen
        | returned p ↦ elim p.settlement [
          | confirmed ↦ (succeeded hash simulation p.result_meta_xdr, seen ++ success ∷ [])
          | rejected ↦
              (failed (some hash) simulation "Transaction failed on-chain" p.result_xdr, seen)
          | unsettled ↦ rest
        ]
      ]

  -- What follows from the end of the polling of the API.
  unfoldable pub conclude :
      OrchestrationOptions
      → Replies N
      → String
      → N
      → Reply Polled
      → List TxStatus
      → TxResult N × List TxStatus
  conclude options r hash simulation (returned p) seen = elim p.settlement [
    | confirmed ↦ (succeeded hash simulation p.result_xdr, seen ++ success ∷ [])
    | _ ↦ (
      failed (some hash) simulation (or_text p.error_message "Transaction failed on-chain")
          p.result_xdr,
      seen,
    )
  ]
  conclude options r hash simulation (thrown message) seen =
      poll_direct r.direct options.max_poll_attempts 0 hash simulation seen

  unfoldable pub submit :
      OrchestrationOptions → Replies N → N → List TxStatus → TxResult N × List TxStatus
  submit options r simulation seen = elim r.submission [
    | thrown message ↦ caught message (seen ++ submitting ∷ [])
    | returned s ↦
        if str_eq s.status "PENDING"
        then conclude options r s.hash simulation (poll_api r.api options.max_poll_attempts 0)
            (seen ++ submitting ∷ polling ∷ [])
        else (
          failed none simulation (String.◌++◌ "Submission failed with status: " s.status) none,
          seen ++ submitting ∷ [],
        )
  ]

  unfoldable pub sign_and_submit :
      OrchestrationOptions → Replies N → N → List TxStatus → TxResult N × List TxStatus
  sign_and_submit options r simulation seen = elim r.preparation [
    | thrown message ↦ caught message seen
    | returned prepared ↦ elim r.signature [
      | thrown message ↦ caught message (seen ++ awaiting_signature ∷ [])
      | returned signed ↦ submit options r simulation (seen ++ awaiting_signature ∷ [])
    ]
  ]

  unfoldable pub orchestrate_tx : OrchestrationOptions → Replies N → TxResult N × List TxStatus
  orchestrate_tx options r = elim r.simulation [
    | thrown message ↦ caught message (simulating ∷ [])
    | returned s ↦
        if options.simulate_only
        then (simulated s.normalized, simulating ∷ [])
        else elim s.failure [
          | some message ↦ (failed none s.normalized message none, simulating ∷ [])
          | none ↦ sign_and_submit options r s.normalized (simulating ∷ [])
        ]
  ]
