-- ===== src/Poller.antt =====
-- apps/web/lib/tx-status-poller.ts: polling for the status of a transaction. What each call of
-- `fetchStatus` answers, and the time that is read after it, are arguments, one `Poll` for each round;
-- an outcome of `none` says that the loop goes on behind the rounds that are given.
pub mod Ends
mod Tests
use Prim.Native.Nat.{min}
use soroban_dev_console.Shared.{ℕ, ◌+◌, ◌*◌, Option, none, some, List, [], ◌∷◌, leb, if◌then◌else◌}

pub data TxStatus : Type 0 where
  success failed not_found : TxStatus

pub data Outcome : Type 0 where
  succeeded was_failed timed_out : Outcome

pub record PollOptions : Type 0 where
  pub initial_delay_ms : ℕ
  pub max_delay_ms : ℕ
  pub timeout_ms : ℕ

abbrev pub default_poll_options : PollOptions
default_poll_options = record { initial_delay_ms = 1000; max_delay_ms = 10000; timeout_ms = 60000 }

pub record Poll : Type 0 where
  pub status : TxStatus
  pub now : ℕ

module _ (options : PollOptions) where
  abbrev pub next_delay : ℕ → ℕ
  next_delay delay = min (delay * 2) options.max_delay_ms

  -- The loop: the outcome, and the delays that were slept.
  unfoldable pub poll_from : ℕ → ℕ → List Poll → Option Outcome × List ℕ
  poll_from start delay [] = (none, [])
  poll_from start delay (p ∷ ps) =
      let (outcome, slept) = poll_from start (next_delay delay) ps in
      elim p.status [
        | success ↦ (some succeeded, [])
        | failed ↦ (some was_failed, [])
        | not_found ↦
            if leb (start + options.timeout_ms) p.now
            then (some timed_out, [])
            else (outcome, delay ∷ slept)
      ]

  unfoldable pub poll_transaction_status : ℕ → List Poll → Option Outcome × List ℕ
  poll_transaction_status start ps = poll_from start options.initial_delay_ms ps
