-- ===== src/DeadLetter.antt =====
-- apps/api/src/modules/dead-letter/dead-letter.service.ts: the queue of jobs that could not be
-- delivered. Ids are numbers, which the database gives, and the time of creation is an argument. The
-- payload, which no method reads, is of any type. The order in which the database lists, and its
-- `groupBy`, are parameters. Events are listed in the order in which they are emitted.
pub mod Bounds
mod Tests
use soroban_dev_console.Shared.{
  ℕ, ◌+◌, String, Bool, true, false, Option, none, some, List, [], ◌∷◌, ◌++◌, leb, ◌==◌, str_eq,
  find, select, length, Dict, lookup, insert, if◌then◌else◌,
}
use soroban_dev_console.Jobs.{or_default}

pub record DeadLetterJob {ℓ} (P : Type ℓ) : Type ℓ where
  pub id : ℕ
  pub job_type : String
  pub payload : P
  pub error : Option String
  pub retry_count : ℕ
  pub max_retries : ℕ
  pub status : String
  pub created_at : ℕ

pub record EnqueueJobDto {ℓ} (P : Type ℓ) : Type ℓ where
  pub job_type : String
  pub payload : P
  pub error : Option String
  pub max_retries : Option ℕ

pub data Event : Type 0 where
  enqueued : ℕ → String → Event
  retried : ℕ → ℕ → Event

pub record Store {ℓ} (P : Type ℓ) : Type ℓ where
  pub jobs : List (DeadLetterJob P)
  pub events : List Event

pub data Answer {ℓ} (P : Type ℓ) : Type ℓ where
  not_found : Answer P
  already_processed : Answer P
  record_missing : Answer P
  exhausted : DeadLetterJob P → Answer P
  again : DeadLetterJob P → Answer P

pub record DeadLetterStats : Type 0 where
  pub total : ℕ
  pub pending : ℕ
  pub processed : ℕ
  pub failed : ℕ
  pub by_job_type : Dict ℕ

-- The loop over the rows of `groupBy`.
unfoldable pub by_type : Dict ℕ → List (String × ℕ) → Dict ℕ
by_type record_of [] = record_of
by_type record_of ((job_type, count) ∷ rows) = by_type (insert job_type count record_of) rows

module _ {ℓ} {P : Type ℓ} where
  abbrev pub row_of : ℕ → ℕ → EnqueueJobDto P → DeadLetterJob P
  row_of now id dto = record {
    id = id;
    job_type = dto.job_type;
    payload = dto.payload;
    error = dto.error;
    retry_count = 0;
    max_retries = or_default dto.max_retries 3;
    status = "pending";
    created_at = now;
  }

  unfoldable pub enqueue : ℕ → ℕ → EnqueueJobDto P → Store P → DeadLetterJob P × Store P
  enqueue now id dto s = (
    row_of now id dto,
    record {
      jobs = s.jobs ++ row_of now id dto ∷ [];
      events = s.events ++ enqueued id dto.job_type ∷ [];
    },
  )

  -- `findMany` with `order` for its `orderBy`.
  unfoldable pub list :
      (List (DeadLetterJob P) → List (DeadLetterJob P))
      → Option String
      → Store P
      → List (DeadLetterJob P)
  list order none s = order s.jobs
  list order (some status) s =
      if str_eq status "" then order s.jobs else order (select (λ j. str_eq j.status status) s.jobs)

  abbrev pub with_id : ℕ → List (DeadLetterJob P) → Option (DeadLetterJob P)
  with_id id jobs = find (λ j. j.id == id) jobs

  -- `update({ where: { id }, data })`, the change of the row as a function.
  unfoldable pub update :
      (DeadLetterJob P → DeadLetterJob P) → ℕ → List (DeadLetterJob P) → List (DeadLetterJob P)
  update f id [] = []
  update f id (j ∷ jobs) = if j.id == id then f j ∷ jobs else j ∷ update f id jobs

  abbrev pub failed_row : DeadLetterJob P → DeadLetterJob P
  failed_row j = record j { status = "failed" }

  -- The count is one more than that of `j`, the row that was read.
  abbrev pub retried_row : DeadLetterJob P → DeadLetterJob P → DeadLetterJob P
  retried_row j k = record k { retry_count = j.retry_count + 1; status = "pending" }

  -- The two writes; that of a row which is gone is the database's "record not found".
  unfoldable pub give_up : ℕ → Store P → Answer P × Store P
  give_up id s =
      let jobs' = update failed_row id s.jobs in
      elim (with_id id jobs') [
        | none ↦ (record_missing, s)
        | some k ↦ (exhausted k, record s { jobs = jobs' })
      ]

  unfoldable pub put_back : ℕ → DeadLetterJob P → Store P → Answer P × Store P
  put_back id j s =
      let jobs' = update (retried_row j) id s.jobs in
      elim (with_id id jobs') [
        | none ↦ (record_missing, s)
        | some k ↦
            (again k, record { jobs = jobs'; events = s.events ++ retried id k.retry_count ∷ [] })
      ]

  -- `retry`, with what others do between the read of the row and the write.
  unfoldable pub retry : (Store P → Store P) → ℕ → Store P → Answer P × Store P
  retry others id s = elim (with_id id s.jobs) [
    | none ↦ (not_found, s)
    | some j ↦
        if str_eq j.status "processed"
        then (already_processed, s)
        else if leb j.max_retries j.retry_count
        then give_up id (others s)
        else put_back id j (others s)
  ]

  abbrev pub count_of : String → List (DeadLetterJob P) → ℕ
  count_of status jobs = length (select (λ j. str_eq j.status status) jobs)

  -- `getStats`, with the states of the table that its five queries see.
  unfoldable pub get_stats :
      (List (DeadLetterJob P) → List (String × ℕ))
      → List (DeadLetterJob P)
      → List (DeadLetterJob P)
      → List (DeadLetterJob P)
      → List (DeadLetterJob P)
      → List (DeadLetterJob P)
      → DeadLetterStats
  get_stats group_by all waiting done lost grouped = record {
    total = length all;
    pending = count_of "pending" waiting;
    processed = count_of "processed" done;
    failed = count_of "failed" lost;
    by_job_type = by_type [] (group_by grouped);
  }
