-- ===== src/Poller/Ends.antt =====
-- apps/web/lib/tx-status-poller.ts: the loop ends, and what its outcome says.
use Prim.Native.Nat.{min}
use soroban_dev_console.Shared.{ℕ, suc, ◌+◌, ◌*◌, ◌≤◌, ◌≡◌, ◌≢◌, none, List, [], ◌∷◌, arith, length}
use soroban_dev_console.Poller.{PollOptions, Poll, next_delay, poll_from, poll_transaction_status}

module _ (options : PollOptions) where
  -- Each round comes at least the delay that was slept after the one before it.
  abbrev pub Spaced : ℕ → ℕ → List Poll → Type 0
  Spaced delay before [] = Unit {0}
  Spaced delay before (p ∷ ps) =
      (before + delay ≤ p.now) × Spaced (next_delay options delay) p.now ps

  suc_times : (n d : ℕ) → suc n * d ≡ d + n * d
  suc_times n d = omega arith

  poll_from-ends :
      (start delay d : ℕ) (p : Poll) (ps : List Poll)
      → d ≤ delay
      → d ≤ options.max_delay_ms
      → start + options.timeout_ms ≤ p.now + length ps * d
      → Spaced delay p.now ps
      → (poll_from options start delay (p ∷ ps)).0 ≢ none
  unfolding poll_from
  poll_from-ends start delay d p [] low cap h s e = ground arith
  poll_from-ends start delay d p (q ∷ ps) low cap h (after, s) e =
      poll_from-ends start (next_delay options delay) d q ps (omega arith) cap
        (omega (arith, suc_times (length ps) d)) s (ground arith)

  -- The poll ends: if the clock passes at least the slept delay from round to round, it has an
  -- outcome once the rounds after the first, each counted with the smaller of the first delay and the
  -- greatest one, cover the timeout.
  pub poll_transaction_status-ends :
      (start : ℕ) (p : Poll) (ps : List Poll)
      → start ≤ p.now
      → Spaced options.initial_delay_ms p.now ps
      → options.timeout_ms ≤ length ps * min options.initial_delay_ms options.max_delay_ms
      → (poll_transaction_status options start (p ∷ ps)).0 ≢ none
  unfolding poll_transaction_status
  poll_transaction_status-ends start p ps h s t =
      poll_from-ends start options.initial_delay_ms
        (min options.initial_delay_ms options.max_delay_ms) p ps (omega arith) (omega arith)
        (omega arith) s
