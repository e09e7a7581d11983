-- ===== src/SyncQueue/Order.antt =====
-- apps/web/store/useSyncQueueStore.ts, `flush`: which mutations are sent, and in which order.
use mathlib.Core.Path.{subst}
use soroban_dev_console.Shared.{
  ℕ, ◌≡◌, ◌⊎◌, inl, inr, refl, sym, ap, ◌∙◌, String, true, Option, List, [], ◌∷◌, ◌++◌, arith,
  select, Bool-cases,
}
use soroban_dev_console.SyncQueue.{
  failed, flushing, error, QueuedMutation, SyncQueue, update_by_id, rollback_optimistic,
  rolled_back,
}
use soroban_dev_console.SyncQueue.Flush.{
  Reply, succeeded, threw, is_conflict, message_of, is_sendable, on_error, on_success, flush_from,
  flush,
}

pub Reply-cases :
    (r : Reply)
    → ((remote : String) × (r ≡ succeeded remote)) ⊎ ((thrown : Option String) × (r ≡ threw thrown))
Reply-cases (succeeded remote) = inl (remote, refl)
Reply-cases (threw thrown) = inr (thrown, refl)

module _ {ℓ} {P : Type ℓ} (reply : QueuedMutation P → Reply)
    (meanwhile : QueuedMutation P → SyncQueue P → SyncQueue P) where
  -- The mutations that were sent are the first ones of those that can be sent; if the flush has not
  -- ended in an error they are all of them.
  abbrev pub IsPrefixSent : List (QueuedMutation P) → List (QueuedMutation P) × SyncQueue P → Type ℓ
  IsPrefixSent ms out =
      (unsent : List (QueuedMutation P)) × (select is_sendable ms ≡ out.0 ++ unsent)
      × ((out.1.flush_status ≡ error) ⊎ (unsent ≡ []))

  on_error-status :
      (id : ℕ) (thrown : Option String) (s : SyncQueue P)
      → (on_error id thrown s).flush_status ≡ error
  unfolding on_error
  on_error-status id thrown s = ground arith

  flush_from-prefix :
      (ms : List (QueuedMutation P)) (s : SyncQueue P)
      → IsPrefixSent ms (flush_from reply meanwhile ms s)
  unfolding flush_from
  flush_from-prefix [] s = ([], refl, inr refl)
  flush_from-prefix (m ∷ ms) s = elim (Bool-cases (is_sendable m)) [
    | inr skipped ↦
        let (unsent, split, ended) = flush_from-prefix ms s in
        (unsent, ground (arith, skipped, split), ground (arith, skipped, ended))
    | inl can ↦ elim (Reply-cases (reply m)) [
      | inl (remote, e) ↦
          let (unsent, split, ended) = flush_from-prefix ms (on_success m remote (meanwhile m s)) in
          (unsent, ground (arith, can, e, split), ground (arith, can, e, ended))
      | inr (thrown, e) ↦ (
        select is_sendable ms,
        ground (arith, can, e),
        ground (arith, can, e, on_error-status m.id thrown (meanwhile m s)),
      )
    ]
  ]

  pub flush-nil : (s : SyncQueue P) → s.queue ≡ [] → flush reply meanwhile s ≡ ([], s)
  unfolding flush
  flush-nil s e = ground (arith, e)

  pub flush-cons :
      (s : SyncQueue P) (m : QueuedMutation P) (ms : List (QueuedMutation P))
      → s.queue ≡ m ∷ ms
      → flush reply meanwhile s
        ≡ flush_from reply meanwhile (m ∷ ms) (record s { flush_status = flushing })
  unfolding flush
  flush-cons s m ms e = ground (arith, e)

  flush-prefix_of :
      (s : SyncQueue P) (ms : List (QueuedMutation P))
      → s.queue ≡ ms
      → IsPrefixSent ms (flush reply meanwhile s)
  flush-prefix_of s [] e = subst (IsPrefixSent []) (sym (flush-nil s e)) ([], refl, inr refl)
  flush-prefix_of s (m ∷ ms) e =
      subst (IsPrefixSent (m ∷ ms)) (sym (flush-cons s m ms e))
        (flush_from-prefix (m ∷ ms) (record s { flush_status = flushing }))

  -- A flush sends the mutations in the order of the queue: what it sends is a first part of the
  -- mutations that are neither confirmed nor over-retried and have what their request needs, and all
  -- of them unless it ends in the error state.
  pub flush-prefix : (s : SyncQueue P) → IsPrefixSent s.queue (flush reply meanwhile s)
  flush-prefix s = flush-prefix_of s s.queue refl

  -- A flush whose first mutation meets an error: it is the only one sent.
  pub flush-refused :
      (s : SyncQueue P) (m : QueuedMutation P) (ms : List (QueuedMutation P))
      (thrown : Option String)
      → s.queue ≡ m ∷ ms
      → is_sendable m ≡ true
      → reply m ≡ threw thrown
      → flush reply meanwhile s
        ≡ (m ∷ [], on_error m.id thrown (meanwhile m (record s { flush_status = flushing })))
  flush-refused s m ms thrown e can r =
      flush-cons s m ms e ∙ unfold flush_from in ground (arith, can, r)

  flush-head :
      (s : SyncQueue P) (m : QueuedMutation P) (ms : List (QueuedMutation P))
      → s.queue ≡ m ∷ ms
      → is_sendable m ≡ true
      → (rest : List (QueuedMutation P)) × ((flush reply meanwhile s).0 ≡ m ∷ rest)
  flush-head s m ms e can = elim (Reply-cases (reply m)) [
    | inl (remote, r) ↦ (
      (flush_from reply meanwhile ms
          (on_success m remote (meanwhile m (record s { flush_status = flushing })))).0,
      ap (λ out. out.0) (flush-cons s m ms e) ∙ unfold flush_from in ground (arith, can, r),
    )
    | inr (thrown, r) ↦ ([], ap (λ out. out.0) (flush-refused s m ms thrown e can r))
  ]

module _ {ℓ} {P : Type ℓ} where
  rolled_back-sendable :
      (reason : String) (m : QueuedMutation P)
      → is_sendable m ≡ true
      → is_sendable (rolled_back reason m) ≡ true
  unfolding is_sendable rolled_back
  rolled_back-sendable reason m h = ground arith

  on_conflict-head :
      (thrown : Option String) (m : QueuedMutation P) (ms : List (QueuedMutation P))
      (s : SyncQueue P)
      → is_conflict thrown ≡ true
      → s.queue ≡ m ∷ ms
      → (on_error m.id thrown s).queue
        ≡ rolled_back (message_of thrown) m ∷ update_by_id (rolled_back (message_of thrown)) m.id ms
  unfolding on_error rollback_optimistic update_by_id
  on_conflict-head thrown m ms s c e = ground (arith, e)

  -- A mutation that the server has refused for a conflict is marked as failed and stays at the head
  -- of the queue, and the next flush sends it again first.
  pub flush-resends :
      (reply reply' : QueuedMutation P → Reply)
      (meanwhile meanwhile' : QueuedMutation P → SyncQueue P → SyncQueue P) (s : SyncQueue P)
      (m : QueuedMutation P) (ms ms' : List (QueuedMutation P)) (thrown : Option String)
      → s.queue ≡ m ∷ ms
      → is_sendable m ≡ true
      → reply m ≡ threw thrown
      → is_conflict thrown ≡ true
      → (meanwhile m (record s { flush_status = flushing })).queue ≡ m ∷ ms'
      → let s' = (flush reply meanwhile s).1 in
        let again = rolled_back (message_of thrown) m in
        (again.mutation_state ≡ failed)
        × ((rest : List (QueuedMutation P)) × ((flush reply' meanwhile' s').0 ≡ again ∷ rest))
  flush-resends reply reply' meanwhile meanwhile' s m ms ms' thrown e can r c kept =
      let s₁ = meanwhile m (record s { flush_status = flushing }) in
      let first = flush-refused reply meanwhile s m ms thrown e can r in
      let again = rolled_back (message_of thrown) m in
      (
        unfold rolled_back in refl,
        subst
            (λ out.
              (rest : List (QueuedMutation P)) × ((flush reply' meanwhile' out.1).0 ≡ again ∷ rest))
            (sym first)
            (flush-head reply' meanwhile' (on_error m.id thrown s₁) again
              (update_by_id (rolled_back (message_of thrown)) m.id ms')
              (on_conflict-head thrown m ms' s₁ c kept)
              (rolled_back-sendable (message_of thrown) m can)),
      )
