-- ===== src/SyncQueue/Outcome.antt =====
-- apps/web/store/useSyncQueueStore.ts, `flush`: what is left in the queue.
use soroban_dev_console.Shared.{
  ℕ, ◌≡◌, inl, inr, refl, sym, ap, ◌∙◌, String, Bool, true, false, not, List, [], ◌∷◌, ◌==◌, arith,
  select, any, Bool-cases,
}
use soroban_dev_console.SyncQueue.{
  idle, flushing, QueuedMutation, SyncQueue, dequeue, update_by_id, confirm_optimistic,
}
use soroban_dev_console.SyncQueue.Flush.{
  Reply, succeeded, is_sendable, on_success, flush_from, flush,
}
use soroban_dev_console.SyncQueue.Order.{flush-nil, flush-cons}

module _ {ℓ} {P : Type ℓ} where
  abbrev pub has_id : ℕ → QueuedMutation P → Bool
  has_id id m = m.id == id

  -- The ids of the mutations that were sent.
  abbrev pub is_sent : List (QueuedMutation P) → QueuedMutation P → Bool
  is_sent sent m = any (λ q. m.id == q.id) sent

  select-update_by_id :
      (f : QueuedMutation P → QueuedMutation P)
      → ((m : QueuedMutation P) → (f m).id ≡ m.id)
      → (id : ℕ) (ms : List (QueuedMutation P))
      → select (λ m. not (m.id == id)) (update_by_id f id ms) ≡ select (λ m. not (m.id == id)) ms
  unfolding update_by_id
  select-update_by_id f keeps id [] = refl
  select-update_by_id f keeps id (m ∷ ms) =
      let rest = select-update_by_id f keeps id ms in
      elim (Bool-cases (m.id == id)) [
        | inl same ↦ let kept : ((f m).id == id) ≡ true = rw (keeps m) same in rw (same, kept) rest
        | inr differs ↦ let same_rest = ap (λ r. m ∷ r) rest in rw (differs, differs) same_rest
      ]

  on_success-queue :
      (m : QueuedMutation P) (remote : String) (s : SyncQueue P)
      → (on_success m remote s).queue ≡ select (λ q. not (q.id == m.id)) s.queue
  unfolding on_success dequeue confirm_optimistic
  on_success-queue m remote s = select-update_by_id _ (λ q. refl) m.id s.queue

  select-none : (ms : List (QueuedMutation P)) → select (λ q. not (is_sent [] q)) ms ≡ ms
  select-none [] = refl
  select-none (m ∷ ms) = ap (λ r. m ∷ r) (select-none ms)

  select-sent :
      (m : QueuedMutation P) (sent ms : List (QueuedMutation P))
      → select (λ q. not (is_sent sent q)) (select (λ q. not (q.id == m.id)) ms)
        ≡ select (λ q. not (is_sent (m ∷ sent) q)) ms
  select-sent m sent [] = refl
  select-sent m sent (q ∷ ms) =
      let rest = select-sent m sent ms in
      elim (Bool-cases (q.id == m.id)) [
        | inr differs ↦ elim (Bool-cases (is_sent sent q)) [
          | inl a ↦ ground (arith, differs, a, rest)
          | inr a ↦ ground (arith, differs, a, rest)
        ]
        | inl same ↦ ground (arith, same, rest)
      ]

  module _ (reply : QueuedMutation P → Reply)
      (answered : (m : QueuedMutation P) → (remote : String) × (reply m ≡ succeeded remote)) where
    abbrev still : QueuedMutation P → SyncQueue P → SyncQueue P
    still m s = s

    -- What is left when nothing is enqueued in the meantime: the mutations that were not sent.
    abbrev pub IsFlushed :
        List (QueuedMutation P)
        → List (QueuedMutation P)
        → List (QueuedMutation P) × SyncQueue P
        → Type ℓ
    IsFlushed ms queue out =
        (out.0 ≡ select is_sendable ms)
        × (out.1.queue ≡ select (λ q. not (is_sent out.0 q)) queue)
        × (out.1.flush_status ≡ idle)

    flush_from-skips :
        (m : QueuedMutation P) (ms : List (QueuedMutation P)) (s : SyncQueue P)
        → is_sendable m ≡ false
        → flush_from reply still (m ∷ ms) s ≡ flush_from reply still ms s
    unfolding flush_from
    flush_from-skips m ms s h = rw h refl

    flush_from-sends :
        (m : QueuedMutation P) (ms : List (QueuedMutation P)) (s : SyncQueue P) (remote : String)
        → is_sendable m ≡ true
        → reply m ≡ succeeded remote
        → flush_from reply still (m ∷ ms) s ≡ (
          m ∷ (flush_from reply still ms (on_success m remote s)).0,
          (flush_from reply still ms (on_success m remote s)).1,
        )
    unfolding flush_from
    flush_from-sends m ms s remote h e = rw (h, e) refl

    flush_from-IsFlushed :
        (ms : List (QueuedMutation P)) (s : SyncQueue P)
        → IsFlushed ms s.queue (flush_from reply still ms s)
    unfolding flush_from
    flush_from-IsFlushed [] s = (refl, sym (select-none s.queue), refl)
    flush_from-IsFlushed (m ∷ ms) s = elim (Bool-cases (is_sendable m)) [
      | inr skipped ↦
          let (sent, left, ended) = flush_from-IsFlushed ms s in
          rw (flush_from-skips m ms s skipped) (sent ∙ ground (arith, skipped), left, ended)
      | inl can ↦
          let (remote, e) = answered m in
          let s' = on_success m remote s in
          let (sent, left, ended) = flush_from-IsFlushed ms s' in
          let out = flush_from reply still ms s' in
          rw (flush_from-sends m ms s remote can e) (
            ap (λ r. m ∷ r) sent ∙ ground (arith, can),
            left
                ∙ ap (select (λ q. not (is_sent out.0 q))) (on_success-queue m remote s)
                ∙ select-sent m out.0 s.queue,
            ended,
          )
    ]

    flush-IsFlushed_of :
        (s : SyncQueue P) (ms : List (QueuedMutation P))
        → s.queue ≡ ms
        → s.flush_status ≡ idle
        → IsFlushed ms s.queue (flush reply still s)
    flush-IsFlushed_of s [] e i =
        rw (flush-nil reply still s e) (refl, sym (select-none s.queue), i)
    flush-IsFlushed_of s (m ∷ ms) e i =
        rw (flush-cons reply still s m ms e)
          (flush_from-IsFlushed (m ∷ ms) (record s { flush_status = flushing }))

    -- When the server accepts every request and nothing else touches the queue, a flush sends every
    -- mutation that can be sent, exactly the mutations with another id are left in the queue, in their
    -- order, and the status is idle again.
    pub flush-IsFlushed :
        (s : SyncQueue P) → s.flush_status ≡ idle → IsFlushed s.queue s.queue (flush reply still s)
    flush-IsFlushed s i = flush-IsFlushed_of s s.queue refl i
