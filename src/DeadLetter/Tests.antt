-- ===== src/DeadLetter/Tests.antt =====
-- apps/api/src/modules/dead-letter/dead-letter.service.ts: the results at concrete queues.
use soroban_dev_console.Shared.{
  insert, ℕ, ◌+◌, ◌≤◌, ◌≡◌, refl, String, none, some, List, [], ◌∷◌, arith,
}
use soroban_dev_console.DeadLetter.{
  DeadLetterJob, EnqueueJobDto, Store, exhausted, again, update, retry, put_back, give_up, by_type,
  get_stats,
}
use soroban_dev_console.DeadLetter.Bounds.{Call, enqueues, retries, granted, retries_bounded}

abbrev job : ℕ → ℕ → DeadLetterJob String
job id count = record {
  id = id;
  job_type = "webhook";
  payload = "body";
  error = none;
  retry_count = count;
  max_retries = 3;
  status = "pending";
  created_at = 10;
}

abbrev queue : Store String
queue = record { jobs = job 1 2 ∷ job 2 0 ∷ []; events = [] }

abbrev mail : EnqueueJobDto String
mail = record { job_type = "mail"; payload = "text"; error = some "down"; max_retries = none }

abbrev calls : List (Call String)
calls = retries 1 ∷ enqueues 20 3 mail ∷ retries 2 ∷ retries 1 ∷ []

retry_granted : (retry (λ t. t) 1 queue).0 ≡ again (job 1 3)
unfolding retry put_back update
retry_granted = refl

retry_refused :
    (retry (λ t. t) 1 (retry (λ t. t) 1 queue).1).0
    ≡ exhausted (record (job 1 3) { status = "failed" })
unfolding retry put_back give_up update
retry_refused = refl

-- Two retries of a job with one retry left, the one between the read and the write of the other, are
-- both granted.
retry_race :
    let inner = retry (λ t. t) 1 in
    ((inner queue).0 ≡ again (job 1 3)) × ((retry (λ t. (inner t).1) 1 queue).0 ≡ again (job 1 3))
unfolding retry put_back update
retry_race = (refl, refl)

by_type_of :
    (get_stats (λ jobs. ("webhook", 2) ∷ []) queue.jobs queue.jobs [] [] queue.jobs).by_job_type
    ≡ ("webhook", 2) ∷ []
unfolding get_stats by_type insert
by_type_of = refl

retries_bounded_example : granted 1 queue calls + 2 ≤ 3
retries_bounded_example = retries_bounded 1 queue calls (job 1 2) refl (omega arith)
