-- ===== src/SyncQueue/Tests.antt =====
-- apps/web/store/useSyncQueueStore.ts: the results at concrete queues.
use soroban_dev_console.Shared.{ℕ, refl, none, some, [], ◌∷◌, false}
use soroban_dev_console.SyncQueue.{QueuedMutation, SyncQueue, create, optimistic, idle}
use soroban_dev_console.SyncQueue.Flush.{Reply, succeeded, flush}
use soroban_dev_console.SyncQueue.Outcome.{IsFlushed, flush-IsFlushed}

abbrev mutation : ℕ → QueuedMutation ℕ
mutation id = record {
  id = id;
  mutation = record { kind = create; local_id = "w"; cloud_id = none; payload = some 3 };
  enqueued_at = 10;
  attempts = 0;
  last_error = none;
  mutation_state = optimistic;
}

abbrev queued : SyncQueue ℕ
queued = record {
  queue = mutation 1 ∷ record (mutation 2) { attempts = 5 } ∷ mutation 3 ∷ [];
  flush_status = idle;
  stale_sync_warning_dismissed = false;
}

abbrev accepted : QueuedMutation ℕ → Reply
accepted m = succeeded "c"

abbrev still : QueuedMutation ℕ → SyncQueue ℕ → SyncQueue ℕ
still m s = s

flush-IsFlushed_example :
    IsFlushed accepted (λ m. ("c", refl)) queued.queue queued.queue (flush accepted still queued)
flush-IsFlushed_example = flush-IsFlushed accepted (λ m. ("c", refl)) queued refl
