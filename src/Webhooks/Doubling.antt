-- ===== src/Webhooks/Doubling.antt =====
-- apps/api/src/lib/webhook-delivery.service.ts, `retryDelivery`: a failed retry puts its successor
-- into the queue and throws, so that the job itself is marked as failed and tried again.
use soroban_dev_console.Shared.{
  ℕ, ◌+◌, ◌<◌, ◌≡◌, ◌≢◌, refl, ◌∙◌, ap, String, true, false, Option, none, some, if◌then◌else◌,
  List, [], ◌∷◌, ◌++◌, ◌==◌, length, select, arith, Bool-cases, inl, inr,
}
use soroban_dev_console.Jobs.{
  EnqueueJobOptions, Job, JobStatus, running, failed, pending, Table, is_waiting, find_unique,
  update, enqueue, fail, failed_row, read_row, write_row, written_row,
}
use soroban_dev_console.Webhooks.{
  Webhooks, Retry, HttpReply, max_attempts, send_http, retry_delivery, enqueue_retry, retry_options,
  delay_after,
}

-- The jobs that a worker may claim once they are due.
abbrev pub waiting : Table → ℕ
waiting jobs = length (select (λ j. is_waiting j.status) jobs)

find_unique-append :
    (id : ℕ) (jobs more : Table) (j : Job)
    → find_unique id jobs ≡ some j
    → find_unique id (jobs ++ more) ≡ some j
find_unique-append id [] more j h = absurd (ground (arith, h))
find_unique-append id (k ∷ jobs) more j h = ground (arith, h, find_unique-append id jobs more j)

waiting-enqueue :
    (now id : ℕ) (o : EnqueueJobOptions) (jobs : Table)
    → waiting (enqueue now id o jobs) ≡ waiting jobs + 1
unfolding enqueue
waiting-enqueue now id o [] = omega arith
waiting-enqueue now id o (j ∷ jobs) = ground (arith, waiting-enqueue now id o jobs)

waiting-update :
    (f : Job → Job) (id : ℕ) (jobs : Table) (j : Job)
    → find_unique id jobs ≡ some j
    → is_waiting j.status ≡ false
    → is_waiting (f j).status ≡ true
    → waiting (update f id jobs) ≡ waiting jobs + 1
unfolding update
waiting-update f id [] j h n y = absurd (ground (arith, h))
waiting-update f id (k ∷ jobs) j h n y = elim (Bool-cases (k.id == id)) [
  | inl here ↦
      let same : k ≡ j = ground (arith, h, here) in
      let n' : is_waiting k.status ≡ false = ap (λ x. is_waiting x.status) same ∙ n in
      let y' : is_waiting (f k).status ≡ true = ap (λ x. is_waiting (f x).status) same ∙ y in
      ground (arith, here, n', y')
  | inr other ↦ ground (arith, other, waiting-update f id jobs j (ground (arith, h, other)) n y)
]

fail-update :
    (later id : ℕ) (error : String) (jobs : Table) (j : Job)
    → find_unique id jobs ≡ some j
    → fail (λ x. x) later id error jobs ≡ update (failed_row later error j) id jobs
unfolding fail read_row write_row written_row
fail-update later id error jobs j there = ground (arith, there)

fail-waiting :
    (later id : ℕ) (error : String) (jobs : Table) (j : Job)
    → find_unique id jobs ≡ some j
    → j.status ≡ running
    → j.attempts < j.max_attempts
    → waiting (fail (λ x. x) later id error jobs) ≡ waiting jobs + 1
unfolding failed_row
fail-waiting later id error jobs j there runs left =
    let more =
      waiting-update (failed_row later error j) id jobs j there (ground (arith, runs))
        (ground (arith, left)) in
    ap waiting (fail-update later id error jobs j there) ∙ more

-- The payload of a job.
abbrev pub payload_of : ℕ → List (ℕ × Retry) → Option Retry
payload_of id [] = none
payload_of id (p ∷ ps) = if p.0 == id then some p.1 else payload_of id ps

payload_of-append :
    (id fresh : ℕ) (r s : Retry) (ps : List (ℕ × Retry))
    → payload_of id ps ≡ some r
    → payload_of id (ps ++ (fresh, s) ∷ []) ≡ some r
payload_of-append id fresh r s [] h = absurd (ground (arith, h))
payload_of-append id fresh r s (p ∷ ps) h = elim (Bool-cases (p.0 == id)) [
  | inl here ↦ ground (arith, here, h)
  | inr other ↦
      let rest = payload_of-append id fresh r s ps (ground (arith, other, h)) in
      ground (arith, other, rest)
]

payload_of-fresh :
    (fresh : ℕ) (s : Retry) (ps : List (ℕ × Retry))
    → payload_of fresh ps ≡ none
    → payload_of fresh (ps ++ (fresh, s) ∷ []) ≡ some s
payload_of-fresh fresh s [] h = ground arith
payload_of-fresh fresh s (p ∷ ps) h = elim (Bool-cases (p.0 == fresh)) [
  | inl here ↦ absurd (ground (arith, here, h))
  | inr other ↦
      let rest = payload_of-fresh fresh s ps (ground (arith, other, h)) in
      ground (arith, other, rest)
]

updated :
    (f : Job → Job) (id : ℕ) (jobs : Table) (j : Job)
    → ((x : Job) → (f x).id ≡ x.id)
    → find_unique id jobs ≡ some j
    → find_unique id (update f id jobs) ≡ some (f j)
unfolding update
updated f id [] j same h = absurd (ground (arith, h))
updated f id (k ∷ jobs) j same h = ground (arith, same k, h, updated f id jobs j same)

untouched :
    (f : Job → Job) (id k : ℕ) (jobs : Table)
    → ((x : Job) → (f x).id ≡ x.id)
    → id ≢ k
    → find_unique k (update f id jobs) ≡ find_unique k jobs
unfolding update
untouched f id k [] same n = refl
untouched f id k (j ∷ jobs) same n = ground (arith, same j, n, untouched f id k jobs same n)

find_unique-fresh :
    (j : Job) (jobs : Table)
    → find_unique j.id jobs ≡ none
    → find_unique j.id (jobs ++ j ∷ []) ≡ some j
find_unique-fresh j [] h = ground arith
find_unique-fresh j (k ∷ jobs) h = elim (Bool-cases (k.id == j.id)) [
  | inl here ↦ absurd (ground (arith, here, h))
  | inr other ↦
      let rest = find_unique-fresh j jobs (ground (arith, other, h)) in ground (arith, other, rest)
]

-- The row of the job is there, and runs or waits; its payload is `r`.
abbrev pub Carries : ℕ → JobStatus → Retry → Table → List (ℕ × Retry) → Type 0
Carries id status r jobs ps =
    (j : Job) × (find_unique id jobs ≡ some j) × (j.status ≡ status) × (payload_of id ps ≡ some r)

failed-Carries :
    (later id : ℕ) (error : String) (r : Retry) (jobs : Table) (ps : List (ℕ × Retry)) (j : Job)
    → find_unique id jobs ≡ some j
    → j.attempts < j.max_attempts
    → payload_of id ps ≡ some r
    → Carries id failed r (fail (λ x. x) later id error jobs) ps
unfolding failed_row
failed-Carries later id error r jobs ps j there left p = (
  failed_row later error j j,
  ap (find_unique id) (fail-update later id error jobs j there)
      ∙ updated (failed_row later error j) id jobs j (λ x. refl) there,
  ground (arith, left),
  p,
)

fresh-Carries :
    (later id : ℕ) (error : String) (r : Retry) (jobs : Table) (ps : List (ℕ × Retry)) (j k : Job)
    → find_unique id jobs ≡ some j
    → id ≢ k.id
    → find_unique k.id jobs ≡ some k
    → payload_of k.id ps ≡ some r
    → Carries k.id k.status r (fail (λ x. x) later id error jobs) ps
unfolding failed_row
fresh-Carries later id error r jobs ps j k there n new p = (
  k,
  ap (find_unique k.id) (fail-update later id error jobs j there)
      ∙ untouched (failed_row later error j) id k.id jobs (λ x. refl) n
      ∙ new,
  refl,
  p,
)

module _ (describe : ℕ → String → String) where
  -- When a retry before the last fails, and the job that ran it is then marked as failed with
  -- attempts left, with nothing between the read and the write of that, two more jobs wait: the job itself, which has failed and keeps its payload, so that
  -- the same attempt is made again, and a pending job with the same payload but for the number of the
  -- attempt, which is the next. The id of the new job was not in use.
  pub retry_delivery-doubles :
      (now later fresh id : ℕ) (r : Retry) (reply : HttpReply) (error : String) (w : Webhooks)
      (j : Job)
      → (send_http describe reply).0 ≡ none
      → r.attempt < max_attempts
      → find_unique id w.jobs ≡ some j
      → j.status ≡ running
      → j.attempts < j.max_attempts
      → payload_of id w.payloads ≡ some r
      → find_unique fresh w.jobs ≡ none
      → payload_of fresh w.payloads ≡ none
      → let (throws, t) = retry_delivery describe now fresh r reply w in
        let after = fail (λ x. x) later id error t.jobs in
        (throws ≡ true)
        × (waiting after ≡ waiting w.jobs + 2)
        × Carries id failed r after t.payloads
        × Carries fresh pending (record r { attempt = r.attempt + 1 }) after t.payloads
  unfolding retry_delivery enqueue enqueue_retry
  retry_delivery-doubles now later fresh id r reply error w j failed_now early there runs left mine
        unused empty =
      let next : Retry = record r { attempt = r.attempt + 1 } in
      let jobs = enqueue now fresh (retry_options (now + delay_after r.attempt)) w.jobs in
      let t : (retry_delivery describe now fresh r reply w).1.jobs ≡ jobs =
        ground (arith, failed_now, early) in
      let ps : (retry_delivery describe now fresh r reply w).1.payloads
          ≡ w.payloads ++ (fresh, next) ∷ [] =
        ground (arith, failed_now, early) in
      let thrown : (retry_delivery describe now fresh r reply w).0 ≡ true =
        ground (arith, failed_now, early) in
      let apart : id ≢ fresh =
        λ e. absurd (ground (arith, there, ap (λ k. find_unique k w.jobs) e, unused)) in
      let still : find_unique id jobs ≡ some j = find_unique-append id w.jobs _ j there in
      let marked = fail-waiting later id error jobs j still runs left in
      let added = waiting-enqueue now fresh (retry_options (now + delay_after r.attempt)) w.jobs in
      (
        thrown,
        rw t (marked ∙ omega (arith, added)),
        rw (t, ps)
            (failed-Carries later id error r jobs _ j still left
              (payload_of-append id fresh r next w.payloads mine)),
        rw (t, ps)
            (fresh-Carries later id error next jobs _ j _ still apart
              (find_unique-fresh _ w.jobs unused) (payload_of-fresh fresh next w.payloads empty)),
      )
