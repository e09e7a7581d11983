-- ===== src/SyncQueue/Flush.antt =====
-- apps/web/store/useSyncQueueStore.ts, `flush`: the queue is sent to the server in order. The
-- server's reply to a mutation, and what is enqueued while the reply is awaited, are arguments. An
-- exception of the callback `onCloudIdResolved` is a reply that was thrown.
use text.Mathlib.Text.{find?}
use soroban_dev_console.Shared.{
  ℕ, ◌+◌, String, Bool, true, false, ◌&&◌, ◌||◌, not, Option, none, some, List, [], ◌∷◌, leb,
  if◌then◌else◌,
}
use soroban_dev_console.SyncQueue.{
  MutationKind, create, update, delete, idle, flushing, error, Mutation, QueuedMutation, SyncQueue,
  max_attempts, is_confirmed, present, dequeue, update_by_id, confirm_optimistic,
  rollback_optimistic,
}

-- The reply of the API: the id of a created workspace, or what was thrown, with the message if that
-- is an `Error`.
pub data Reply : Type 0 where
  succeeded : String → Reply
  threw : Option String → Reply

abbrev pub message_of : Option String → String
message_of none = "Unknown error"
message_of (some m) = m

abbrev pub includes : String → String → Bool
includes text part = elim (find? text part) [ none ↦ false | some i ↦ true ]

abbrev pub is_conflict : Option String → Bool
is_conflict none = false
is_conflict (some m) = includes m "409" || includes m "conflict" || includes m "revision"

-- What `confirmOptimistic` is given: the new id for a creation alone.
abbrev pub confirmed_id : MutationKind → String → Option String
confirmed_id create remote = some remote
confirmed_id _ remote = none

module _ {ℓ} {P : Type ℓ} where
  -- Whether one of the three branches makes a request.
  unfoldable pub has_request : MutationKind → Mutation P → Bool
  has_request create m = elim m.payload [ none ↦ false | some p ↦ true ]
  has_request update m = present m.cloud_id && elim m.payload [ none ↦ false | some p ↦ true ]
  has_request delete m = present m.cloud_id

  -- A mutation that is neither confirmed nor over-retried and whose branch makes a request.
  unfoldable pub is_sendable : QueuedMutation P → Bool
  is_sendable m =
      not (is_confirmed m.mutation_state)
      && not (leb max_attempts m.attempts)
      && has_request m.kind m.mutation

  unfoldable pub retried : String → QueuedMutation P → QueuedMutation P
  retried message m = record m { attempts = m.attempts + 1; last_error = some message }

  -- The handler of an exception; the flush ends with it.
  unfoldable pub on_error : ℕ → Option String → SyncQueue P → SyncQueue P
  on_error id thrown s =
      if is_conflict thrown
      then record (rollback_optimistic id (message_of thrown) s) { flush_status = error }
      else record s {
        queue = update_by_id (retried (message_of thrown)) id s.queue;
        flush_status = error;
      }

  unfoldable pub on_success : QueuedMutation P → String → SyncQueue P → SyncQueue P
  on_success m remote s = dequeue m.id (confirm_optimistic m.id (confirmed_id m.kind remote) s)

  module _ (reply : QueuedMutation P → Reply)
      (meanwhile : QueuedMutation P → SyncQueue P → SyncQueue P) where
    -- The loop over the queue as it was at the start: the mutations that were sent, in their order,
    -- and the new state.
    unfoldable pub flush_from :
        List (QueuedMutation P) → SyncQueue P → List (QueuedMutation P) × SyncQueue P
    flush_from [] s = ([], record s { flush_status = idle })
    flush_from (m ∷ ms) s =
        let s₁ = meanwhile m s in
        let skip = flush_from ms s in
        if is_sendable m
        then elim (reply m) [
          | succeeded remote ↦
              let (sent, s₂) = flush_from ms (on_success m remote s₁) in (m ∷ sent, s₂)
          | threw thrown ↦ (m ∷ [], on_error m.id thrown s₁)
        ]
        else skip

    unfoldable pub flush : SyncQueue P → List (QueuedMutation P) × SyncQueue P
    flush s = elim s.queue [
      | [] ↦ ([], s)
      | m ∷ ms ↦ flush_from (m ∷ ms) (record s { flush_status = flushing })
    ]
