-- ===== src/DeadLetter/Bounds.antt =====
-- apps/api/src/modules/dead-letter/dead-letter.service.ts: how often a job is retried.
use mathlib.Core.Path.{subst}
use soroban_dev_console.Shared.{
  ℕ, ◌+◌, ◌≤◌, ◌≡◌, refl, sym, ap, ◌∙◌, true, false, some, List, [], ◌∷◌, ◌++◌, leb, ◌==◌, str_eq,
  arith, Bool-cases, Option-cases, inl, inr, if◌then◌else◌,
}
use soroban_dev_console.DeadLetter.{
  DeadLetterJob, EnqueueJobDto, Store, Answer, retried, again, exhausted, not_found,
  already_processed, give_up, put_back, enqueue, with_id, update, failed_row, retried_row, retry,
}

-- The calls that change the queue, with the time and the id of a new job.
pub data Call {ℓ} (P : Type ℓ) : Type ℓ where
  enqueues : ℕ → ℕ → EnqueueJobDto P → Call P
  retries : ℕ → Call P

module _ {ℓ} {P : Type ℓ} where
  abbrev pub step : Store P → Call P → Store P
  step s (enqueues now id dto) = (enqueue now id dto s).1
  step s (retries id) = (retry (λ t. t) id s).1

  -- Whether the call puts the job of the id back into the queue.
  abbrev pub grants : ℕ → Store P → Call P → ℕ
  grants id s (enqueues now new dto) = 0
  grants id s (retries other) =
      if other == id then elim (retry (λ t. t) other s).0 [ again _ ↦ 1 | _ ↦ 0 ] else 0

  abbrev pub granted : ℕ → Store P → List (Call P) → ℕ
  granted id s [] = 0
  granted id s (c ∷ cs) = grants id s c + granted id (step s c) cs

  with_id-append :
      (id : ℕ) (jobs more : List (DeadLetterJob P)) (j : DeadLetterJob P)
      → with_id id jobs ≡ some j
      → with_id id (jobs ++ more) ≡ some j
  with_id-append id [] more j h = ground arith
  with_id-append id (k ∷ jobs) more j h = elim (Bool-cases (k.id == id)) [
    | inl e ↦ ground arith
    | inr e ↦ let rest = with_id-append id jobs more j (ground arith) in ground arith
  ]

  with_id-hit :
      (id : ℕ) (k : DeadLetterJob P) (jobs : List (DeadLetterJob P))
      → k.id == id ≡ true
      → with_id id (k ∷ jobs) ≡ some k
  with_id-hit id k jobs e = rw e refl

  with_id-miss :
      (id : ℕ) (k : DeadLetterJob P) (jobs : List (DeadLetterJob P))
      → k.id == id ≡ false
      → with_id id (k ∷ jobs) ≡ with_id id jobs
  with_id-miss id k jobs e = rw e refl

  with_id-update :
      (f : DeadLetterJob P → DeadLetterJob P) (id other : ℕ) (jobs : List (DeadLetterJob P))
      (j : DeadLetterJob P)
      → ((k : DeadLetterJob P) → (f k).id ≡ k.id)
      → with_id id jobs ≡ some j
      → with_id id (update f other jobs) ≡ (if other == id then some (f j) else some j)
  unfolding update
  with_id-update f id other [] j same h = ground arith
  with_id-update f id other (k ∷ jobs) j same h = elim (Bool-cases (k.id == other)) [
    | inl o ↦ elim (Bool-cases (k.id == id)) [
      | inl e ↦
          let here : other == id ≡ true = ground arith in
          let first : k ≡ j = ground (arith, with_id-hit id k jobs e) in
          rw (o, here)
            (with_id-hit id (f k) jobs (ap (λ x. x == id) (same k) ∙ e)
              ∙ ap (λ x. some (f x)) first)
      | inr e ↦
          let apart : other == id ≡ false = ground arith in
          rw (o, apart)
            (with_id-miss id (f k) jobs (ap (λ x. x == id) (same k) ∙ e)
              ∙ sym (with_id-miss id k jobs e)
              ∙ h)
    ]
    | inr o ↦ elim (Bool-cases (k.id == id)) [
      | inl e ↦
          let apart : other == id ≡ false = ground arith in
          rw (o, apart)
            (with_id-hit id k (update f other jobs) e ∙ sym (with_id-hit id k jobs e) ∙ h)
      | inr e ↦ rw o (
          with_id-miss id k (update f other jobs) e
          ∙ with_id-update f id other jobs j same (sym (with_id-miss id k jobs e) ∙ h))
    ]
  ]

  abbrev given_up : ℕ → Store P → Store P
  given_up id s = record s { jobs = update failed_row id s.jobs }

  abbrev requeued : ℕ → DeadLetterJob P → Store P → Store P
  requeued id j s = record {
    jobs = update (retried_row j) id s.jobs;
    events = s.events ++ retried id (j.retry_count + 1) ∷ [];
  }

  written :
      (f : DeadLetterJob P → DeadLetterJob P) (id : ℕ) (s : Store P) (i : DeadLetterJob P)
      → ((k : DeadLetterJob P) → (f k).id ≡ k.id)
      → with_id id s.jobs ≡ some i
      → with_id id (update f id s.jobs) ≡ some (f i)
  written f id s i same there =
      let own : id == id ≡ true = ground arith in
      with_id-update f id id s.jobs i same there ∙ rw own refl

  gave_up :
      (id : ℕ) (s : Store P) (i : DeadLetterJob P)
      → with_id id s.jobs ≡ some i
      → give_up id s ≡ (exhausted (failed_row i), given_up id s)
  unfolding give_up
  gave_up id s i there = ground (arith, written failed_row id s i (λ k. refl) there)

  put_again :
      (id : ℕ) (s : Store P) (i : DeadLetterJob P)
      → with_id id s.jobs ≡ some i
      → put_back id i s ≡ (again (retried_row i i), requeued id i s)
  unfolding put_back
  put_again id s i there = ground (arith, written (retried_row i) id s i (λ k. refl) there)

  -- What one call does to the row of an id.
  abbrev Row : ℕ → ℕ → DeadLetterJob P → Store P → Type ℓ
  Row id n j s =
      (k : DeadLetterJob P) × (with_id id s.jobs ≡ some k)
      × (k.retry_count ≡ n + j.retry_count)
      × (k.max_retries ≡ j.max_retries)
      × (k.retry_count ≤ k.max_retries)

  step-Row :
      (id : ℕ) (s : Store P) (c : Call P) (j : DeadLetterJob P)
      → with_id id s.jobs ≡ some j
      → j.retry_count ≤ j.max_retries
      → Row id (grants id s c) j (step s c)
  unfolding enqueue retry
  step-Row id s (enqueues now new dto) j h b =
      (j, with_id-append id s.jobs _ j h, omega arith, refl, b)
  step-Row id s (retries other) j h b = elim (Option-cases (with_id other s.jobs)) [
    | inl missing ↦
        by_answer (not_found, s) (rw (retry, missing) refl) (j, h, ground arith, refl, b)
    | inr (i, there) ↦ elim (Bool-cases (str_eq i.status "processed")) [
      | inl p ↦
          by_answer (already_processed, s) (rw (retry, there, p) refl) (j, h, ground arith, refl, b)
      | inr p ↦ elim (Bool-cases (leb i.max_retries i.retry_count)) [
        | inl l ↦ elim (Bool-cases (other == id)) [
          | inl e ↦
              by_answer (exhausted (failed_row i), given_up other s)
                (rw (retry, there, p, l) (gave_up other s i there))
                (failed_row j, updated failed_row (λ k. refl) e, ground arith, refl, b)
          | inr e ↦
              by_answer (exhausted (failed_row i), given_up other s)
                (rw (retry, there, p, l) (gave_up other s i there))
                (j, kept failed_row (λ k. refl) e, ground arith, refl, b)
        ]
        | inr l ↦ elim (Bool-cases (other == id)) [
          | inl e ↦
              let same : i ≡ j = ground (arith, found_again i there e) in
              let below : leb j.max_retries j.retry_count ≡ false =
                subst (λ x. leb x.max_retries x.retry_count ≡ false) same l in
              by_answer (again (retried_row i i), requeued other i s)
                (rw (retry, there, p, l) (put_again other s i there))
                (
                  retried_row i j,
                  updated (retried_row i) (λ k. refl) e,
                  ground arith,
                  refl,
                  ground arith,
                )
          | inr e ↦
              by_answer (again (retried_row i i), requeued other i s)
                (rw (retry, there, p, l) (put_again other s i there))
                (j, kept (retried_row i) (λ k. refl) e, ground arith, refl, b)
        ]
      ]
    ]
  ]
    where
      by_answer :
          (r : Answer P × Store P)
          → retry (λ t. t) other s ≡ r
          → Row id (if other == id then elim r.0 [ again _ ↦ 1 | _ ↦ 0 ] else 0) j r.1
          → Row id (grants id s (retries other)) j (step s (retries other))
      by_answer r e row =
          subst (λ r. Row id (if other == id then elim r.0 [ again _ ↦ 1 | _ ↦ 0 ] else 0) j r.1)
            (sym e) row

      updated :
          (f : DeadLetterJob P → DeadLetterJob P)
          → ((k : DeadLetterJob P) → (f k).id ≡ k.id)
          → other == id ≡ true
          → with_id id (update f other s.jobs) ≡ some (f j)
      updated f same e = with_id-update f id other s.jobs j same h ∙ rw e refl

      kept :
          (f : DeadLetterJob P → DeadLetterJob P)
          → ((k : DeadLetterJob P) → (f k).id ≡ k.id)
          → other == id ≡ false
          → with_id id (update f other s.jobs) ≡ some j
      kept f same e = with_id-update f id other s.jobs j same h ∙ rw e refl

      found_again :
          (i : DeadLetterJob P)
          → with_id other s.jobs ≡ some i
          → other == id ≡ true
          → with_id id s.jobs ≡ some i
      found_again i there e = subst (λ x. with_id x s.jobs ≡ some i) (ground arith) there

  -- In a history of calls one after the other, with nothing between the read and the write of a
  -- retry, a job is put back into the queue at most as often as it has retries left: the retries that
  -- are granted, and those that were counted before them, are no more than the maximum.
  pub retries_bounded :
      (id : ℕ) (s : Store P) (cs : List (Call P)) (j : DeadLetterJob P)
      → with_id id s.jobs ≡ some j
      → j.retry_count ≤ j.max_retries
      → granted id s cs + j.retry_count ≤ j.max_retries
  retries_bounded id s [] j h b = omega (arith, b)
  retries_bounded id s (c ∷ cs) j h b =
      let (k, there, counted, limit, below) = step-Row id s c j h b in
      let rest = retries_bounded id (step s c) cs k there below in
      omega (arith, rest, counted, limit)
