-- ===== src/Poller/Tests.antt =====
-- apps/web/lib/tx-status-poller.ts: the results at concrete rounds.
use soroban_dev_console.Shared.{ℕ, ◌≢◌, none, [], ◌∷◌, arith}
use soroban_dev_console.Poller.{PollOptions, Poll, not_found, poll_transaction_status}
use soroban_dev_console.Poller.Ends.{poll_transaction_status-ends}

abbrev options : PollOptions
options = record { initial_delay_ms = 10; max_delay_ms = 15; timeout_ms = 20 }

abbrev round : ℕ → Poll
round now = record { status = not_found; now = now }

poll_transaction_status-ends_example :
    (poll_transaction_status options 5 (round 6 ∷ round 16 ∷ round 31 ∷ [])).0 ≢ none
poll_transaction_status-ends_example =
    poll_transaction_status-ends options 5 (round 6) (round 16 ∷ round 31 ∷ []) (omega arith)
      (omega arith, (omega arith, tt)) (omega arith)
