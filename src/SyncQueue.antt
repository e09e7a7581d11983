-- ===== src/SyncQueue.antt =====
-- apps/web/store/useSyncQueueStore.ts: the offline queue of workspace mutations. Ids come from
-- `crypto.randomUUID` and are arguments; a payload is of any type.
pub mod Flush
pub mod Order
pub mod Outcome
mod Tests
use Prim.Native.String
use soroban_dev_console.Shared.{
  ℕ, suc, ◌+◌, ◌<◌, String, Bool, true, false, ◌&&◌, ◌||◌, not, Option, none, some, List, [], ◌∷◌,
  ◌++◌, map, ltb, leb, ◌==◌, if◌then◌else◌, length, select, any, str_eq,
}

pub data MutationKind : Type 0 where
  create update delete : MutationKind

pub data MutationState : Type 0 where
  optimistic confirmed failed : MutationState

pub data FlushStatus : Type 0 where
  idle flushing error : FlushStatus

-- What the caller of `enqueue` gives.
pub record Mutation {ℓ} (P : Type ℓ) : Type ℓ where
  pub kind : MutationKind
  pub local_id : String
  pub cloud_id : Option String
  pub payload : Option P

pub record QueuedMutation {ℓ} (P : Type ℓ) : Type ℓ where
  pub id : ℕ
  pub mutation : Mutation P
  pub open mutation use *
  pub enqueued_at : ℕ
  pub attempts : ℕ
  pub last_error : Option String
  pub mutation_state : MutationState

pub record SyncQueue {ℓ} (P : Type ℓ) : Type ℓ where
  pub queue : List (QueuedMutation P)
  pub flush_status : FlushStatus
  pub stale_sync_warning_dismissed : Bool

abbrev pub max_attempts : ℕ
max_attempts = 5

abbrev pub stale_threshold_ms : ℕ
stale_threshold_ms = 86400000

abbrev pub is_confirmed : MutationState → Bool
is_confirmed confirmed = true
is_confirmed _ = false

abbrev pub is_optimistic_state : MutationState → Bool
is_optimistic_state optimistic = true
is_optimistic_state _ = false

-- A text that is there and is not empty.
abbrev pub present : Option String → Bool
present none = false
present (some s) = not (str_eq s "")

module _ {ℓ} {P : Type ℓ} where
  unfoldable pub enqueue : ℕ → ℕ → Mutation P → SyncQueue P → SyncQueue P
  enqueue now id m s = record s {
    queue =
        s.queue
        ++ record {
          id = id;
          mutation = m;
          enqueued_at = now;
          attempts = 0;
          last_error = none;
          mutation_state = optimistic;
        }
          ∷ [];
    stale_sync_warning_dismissed = false;
  }

  unfoldable pub apply_optimistic : ℕ → ℕ → Mutation P → SyncQueue P → SyncQueue P
  apply_optimistic now id m s = record s {
    queue =
        s.queue
        ++ record {
          id = id;
          mutation = m;
          enqueued_at = now;
          attempts = 0;
          last_error = none;
          mutation_state = optimistic;
        }
          ∷ [];
    stale_sync_warning_dismissed = false;
  }

  unfoldable pub dequeue : ℕ → SyncQueue P → SyncQueue P
  dequeue id s = record s { queue = select (λ m. not (m.id == id)) s.queue }

  -- `queue.map((m) => m.id === id ? … : m)`
  unfoldable pub update_by_id :
      (QueuedMutation P → QueuedMutation P) → ℕ → List (QueuedMutation P) → List (QueuedMutation P)
  update_by_id f id [] = []
  update_by_id f id (m ∷ ms) = (if m.id == id then f m else m) ∷ update_by_id f id ms

  -- `...(cloudId ? { cloudId } : {})`
  unfoldable pub with_cloud_id : Option String → Mutation P → Mutation P
  with_cloud_id cloud_id m = if present cloud_id then record m { cloud_id = cloud_id } else m

  unfoldable pub confirm_optimistic : ℕ → Option String → SyncQueue P → SyncQueue P
  confirm_optimistic id cloud_id s = record s {
    queue =
        update_by_id
          (λ m. record m {
            mutation = with_cloud_id cloud_id m.mutation;
            mutation_state = confirmed;
          })
          id s.queue;
  }

  unfoldable pub rolled_back : String → QueuedMutation P → QueuedMutation P
  rolled_back reason m = record m { mutation_state = failed; last_error = some reason }

  unfoldable pub rollback_optimistic : ℕ → String → SyncQueue P → SyncQueue P
  rollback_optimistic id reason s = record s {
    queue = update_by_id (rolled_back reason) id s.queue;
  }

  unfoldable pub clear_queue : SyncQueue P → SyncQueue P
  clear_queue s = record { queue = []; flush_status = idle; stale_sync_warning_dismissed = false }

  unfoldable pub pending_count : SyncQueue P → ℕ
  pending_count s = length (select (λ m. not (is_confirmed m.mutation_state)) s.queue)

  -- `enqueuedAt < Date.now() - STALE_THRESHOLD_MS`
  unfoldable pub has_stale_sync : ℕ → SyncQueue P → Bool
  has_stale_sync now s =
      not s.stale_sync_warning_dismissed
      && any
          (λ m. ltb (m.enqueued_at + stale_threshold_ms) now && not (is_confirmed m.mutation_state))
          s.queue

  unfoldable pub dismiss_stale_sync_warning : SyncQueue P → SyncQueue P
  dismiss_stale_sync_warning s = record s { stale_sync_warning_dismissed = true }

  unfoldable pub get_optimistic_mutations : SyncQueue P → List (QueuedMutation P)
  get_optimistic_mutations s = select (λ m. is_optimistic_state m.mutation_state) s.queue

  unfoldable pub is_optimistic : String → SyncQueue P → Bool
  is_optimistic local_id s =
      any (λ m. str_eq m.local_id local_id && is_optimistic_state m.mutation_state) s.queue
