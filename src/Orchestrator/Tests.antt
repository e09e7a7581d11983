-- ===== src/Orchestrator/Tests.antt =====
-- apps/web/lib/tx-orchestrator.ts: the results at concrete replies.
use soroban_dev_console.Shared.{
  ℕ, zero, suc, ◌+◌, ◌≡◌, refl, String, true, false, none, some, [], ◌∷◌, inl, arith, ap, ◌<◌,
}
use soroban_dev_console.Orchestrator.{
  idle, simulating, awaiting_signature, submitting, polling, success, Reply, returned, thrown,
  Polled, confirmed, unsettled, Replies, OrchestrationOptions, poll_api, poll_direct, conclude,
  submit, sign_and_submit, orchestrate_tx,
}
use soroban_dev_console.Orchestrator.Results.{
  IsConfirmed, orchestrate_tx-IsConfirmed, orchestrate_tx-settles,
}
use soroban_dev_console.Orchestrator.Diagram.{Trace, orchestrate_tx-Trace}
use soroban_dev_console.Orchestrator.Watch.{
  watching, on_open, on_error, stays, goes, fails, HasOneSource, IsSilent, Reach-HasOneSource,
  on_error-IsSilent,
}

abbrev poll_of : String → Polled
poll_of hash = record {
  settlement = confirmed;
  error_message = none;
  result_xdr = none;
  result_meta_xdr = some hash;
}

abbrev waiting : Polled
waiting = record {
  settlement = unsettled;
  error_message = none;
  result_xdr = none;
  result_meta_xdr = none;
}

-- The API is down; the network settles in the second round.
abbrev direct : ℕ → Reply Polled
direct zero = returned waiting
direct (suc n) = returned (poll_of "meta")

abbrev replies : Replies ℕ
replies = record {
  simulation = returned (record { normalized = 7; failure = none });
  preparation = returned tt;
  signature = returned tt;
  submission = returned (record { status = "PENDING"; hash = "ab" });
  api = λ i. thrown (some "down");
  direct = direct;
}

abbrev options : OrchestrationOptions
options = record { simulate_only = false; max_poll_attempts = 2 }

orchestrate_tx_statuses :
    (orchestrate_tx options replies).1
    ≡ simulating ∷ awaiting_signature ∷ submitting ∷ polling ∷ success ∷ []
unfolding orchestrate_tx sign_and_submit submit conclude poll_api poll_direct
orchestrate_tx_statuses = refl

orchestrate_tx-Trace_example : Trace idle (orchestrate_tx options replies).1
orchestrate_tx-Trace_example = orchestrate_tx-Trace options replies

orchestrate_tx-IsConfirmed_example :
    IsConfirmed options replies
      (simulating ∷ awaiting_signature ∷ submitting ∷ polling ∷ [])
      (orchestrate_tx options replies)
unfolding orchestrate_tx sign_and_submit submit conclude poll_api poll_direct
orchestrate_tx-IsConfirmed_example = orchestrate_tx-IsConfirmed options replies refl refl

only_zero : (i : ℕ) → i < 1 → i ≡ 0
only_zero i h = omega (arith, h)

before_one :
    (i : ℕ) → i < 1 → (q : Polled) × (direct (0 + i) ≡ returned q) × (q.settlement ≡ unsettled)
before_one i h = let e : 0 + i ≡ 0 = omega (arith, h) in (waiting, ap direct e, refl)

orchestrate_tx-settles_example : (orchestrate_tx options replies).0.is_success ≡ true
unfolding poll_api
orchestrate_tx-settles_example =
    orchestrate_tx-settles options replies (record { normalized = 7; failure = none })
      (record { status = "PENDING"; hash = "ab" }) (some "down") 1 (poll_of "meta") refl refl refl
      refl refl refl refl refl (omega arith) before_one refl refl

Reach-HasOneSource_example : HasOneSource (on_error watching)
Reach-HasOneSource_example =
    Reach-HasOneSource watching (on_error watching)
      (goes watching (on_error watching) (on_error watching) (fails watching refl)
        (stays (on_error watching)))
      (inl (refl, refl))

on_error-IsSilent_example : IsSilent (on_error (on_open watching))
on_error-IsSilent_example =
    on_error-IsSilent watching (on_error (on_open watching)) (inl (refl, refl)) refl
      (stays (on_error (on_open watching)))
