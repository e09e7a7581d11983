-- ===== src/Jobs.antt =====
-- apps/api/src/lib/background-job.service.ts: background jobs with retries and a dead-letter queue.
-- The table is a list of rows with distinct ids. Audit records and log lines change no job and are
-- left out, and so is the payload, which no method reads. Ids are numbers. Each write sets
-- `updatedAt`, as the schema's `@updatedAt` says. Time is an argument.
pub mod Attempts
pub mod Claims
pub mod DeadLetters
pub mod Histories
pub mod Limits
mod Rows
mod UnderWay
mod Tests
use soroban_dev_console.Shared.{
  ℕ, suc, ◌+◌, ◌<◌, String, Bool, true, false, ◌&&◌, ◌||◌, not, Option, none, some, List, [], ◌∷◌,
  ◌++◌, ltb, leb, ◌==◌, if◌then◌else◌, length, select, find, str_eq,
}

pub data JobStatus : Type 0 where
  pending running completed failed dead : JobStatus

pub record Job : Type 0 where
  pub id : ℕ
  pub kind : String
  pub status : JobStatus
  pub queue : String
  pub priority : ℕ
  pub attempts : ℕ
  pub max_attempts : ℕ
  pub last_error : Option String
  pub scheduled_at : ℕ
  pub locked_until : Option ℕ
  pub completed_at : Option ℕ
  pub dead_letter_at : Option ℕ
  pub dead_letter_reason : Option String
  pub updated_at : ℕ

pub record EnqueueJobOptions : Type 0 where
  pub kind : String
  pub max_attempts : Option ℕ
  pub scheduled_at : Option ℕ
  pub queue : Option String
  pub priority : Option ℕ

abbrev pub Table : Type 0
Table = List Job

abbrev pub lock_duration_ms : ℕ
lock_duration_ms = 30000

abbrev pub or_default {ℓ} : {A : Type ℓ} → Option A → A → A
or_default none d = d
or_default (some a) d = a

abbrev pub is_dead : JobStatus → Bool
is_dead dead = true
is_dead _ = false

-- `status: { in: ["pending", "failed"] }`
abbrev pub is_waiting : JobStatus → Bool
is_waiting pending = true
is_waiting failed = true
is_waiting _ = false

-- `OR: [{ lockedUntil: null }, { lockedUntil: { lte: now } }]`
abbrev pub is_unlocked : ℕ → Job → Bool
is_unlocked now j = elim j.locked_until [ none ↦ true | some t ↦ leb t now ]

-- `findUnique({ where: { id } })`
abbrev pub find_unique : ℕ → Table → Option Job
find_unique id jobs = find (λ j. j.id == id) jobs

-- `update({ where: { id }, data })`, the change of a row as a function.
unfoldable pub update : (Job → Job) → ℕ → Table → Table
update f id [] = []
update f id (j ∷ jobs) = if j.id == id then f j ∷ jobs else j ∷ update f id jobs

-- `enqueue`, with the id that the database gives.
unfoldable pub enqueue : ℕ → ℕ → EnqueueJobOptions → Table → Table
enqueue now id o jobs =
    jobs
    ++ record {
      id = id;
      kind = o.kind;
      status = pending;
      queue = or_default o.queue "default";
      priority = or_default o.priority 0;
      attempts = 0;
      max_attempts = or_default o.max_attempts 3;
      last_error = none;
      scheduled_at = or_default o.scheduled_at now;
      locked_until = none;
      completed_at = none;
      dead_letter_at = none;
      dead_letter_reason = none;
      updated_at = now;
    }
      ∷ []

abbrev pub in_queue : Option String → Job → Bool
in_queue none j = true
in_queue (some q) j = str_eq q "" || str_eq j.queue q

-- The `where` clause of `claimNext`.
unfoldable pub is_claimable : ℕ → String → Option String → Job → Bool
is_claimable now kind queue j =
    str_eq j.kind kind
    && is_waiting j.status
    && leb j.scheduled_at now
    && ltb j.attempts j.max_attempts
    && is_unlocked now j
    && in_queue queue j

-- `orderBy: [{ priority: "desc" }, { scheduledAt: "asc" }]`: whether `a` comes before `b`.
unfoldable pub comes_before : Job → Job → Bool
comes_before a b =
    ltb b.priority a.priority || (a.priority == b.priority && ltb a.scheduled_at b.scheduled_at)

-- `findFirst`: the first row in the order; of equal ones that which stands first in the table.
unfoldable pub first_of_rows : List Job → Option Job
first_of_rows [] = none
first_of_rows (j ∷ jobs) = elim (first_of_rows jobs) [
  | none ↦ some j
  | some k ↦ if comes_before k j then some k else some j
]

unfoldable pub find_candidate : ℕ → String → Option String → Table → Option Job
find_candidate now kind queue jobs = first_of_rows (select (is_claimable now kind queue) jobs)

-- The row that the conditional update of `claimNext` writes.
unfoldable pub claimed : ℕ → Job → Job
claimed now j = record j {
  status = running;
  attempts = j.attempts + 1;
  locked_until = some (now + lock_duration_ms);
  updated_at = now;
}

-- `updateMany` on the candidate's id: the table, and whether a row was updated (`count` is 1).
unfoldable pub try_claim : ℕ → ℕ → Table → Bool × Table
try_claim now id jobs = elim (find_unique id jobs) [
  | none ↦ (false, jobs)
  | some j ↦
      if is_waiting j.status && is_unlocked now j
      then (true, update (claimed now) id jobs)
      else (false, jobs)
]

-- `claimNext`, with what other workers do to the table between the read and the update.
unfoldable pub claim_next :
    (Table → Table) → ℕ → String → Option String → Table → Option Job × Table
claim_next others now kind queue jobs = elim (find_candidate now kind queue jobs) [
  | none ↦ (none, jobs)
  | some c ↦
      let (done, jobs') = try_claim now c.id (others jobs) in
      if done then (find_unique c.id jobs', jobs') else (none, jobs')
]

unfoldable pub completed_row : ℕ → Job → Job
completed_row now j = record j {
  status = completed;
  completed_at = some now;
  locked_until = none;
  last_error = none;
  updated_at = now;
}

-- `none` is the database's "record not found", after which the table is as it was.
unfoldable pub complete : ℕ → ℕ → Table → Option Table
complete now id jobs = elim (find_unique id jobs) [
  | none ↦ none
  | some job ↦ some (update (completed_row now) id jobs)
]

-- The row that `fail` writes over `job`, the row that it has read.
unfoldable pub failed_row : ℕ → String → Job → Job → Job
failed_row now error job j =
    let exhausted = leb job.max_attempts job.attempts in
    record j {
      status = (if exhausted then dead else failed);
      last_error = some error;
      locked_until = none;
      dead_letter_at = (if exhausted then some now else j.dead_letter_at);
      dead_letter_reason = (if exhausted then some error else j.dead_letter_reason);
      queue =
          (if exhausted
            then "dead_letter"
            else if leb job.max_attempts (job.attempts + 1)
            then "retry"
            else j.queue);
      updated_at = now;
    }

-- The row that `replay` writes over `job`.
unfoldable pub replayed_row : ℕ → Job → Job → Job
replayed_row now job j = record j {
  status = pending;
  attempts = 0;
  last_error = none;
  locked_until = none;
  scheduled_at = now;
  queue = (if str_eq job.queue "dead_letter" then "retry" else job.queue);
  dead_letter_at = none;
  dead_letter_reason = none;
  updated_at = now;
}

-- The row that `retryDeadLetter` writes over `job`.
unfoldable pub retried_row : ℕ → Job → Job → Job
retried_row now job j = record j {
  status = pending;
  attempts = 0;
  last_error = none;
  locked_until = none;
  scheduled_at = now;
  dead_letter_at = none;
  dead_letter_reason = none;
  queue = (if str_eq job.queue "dead_letter" then "retry" else job.queue);
  updated_at = now;
}

-- What `fail`, `replay` and `retryDeadLetter` are about to write, over a row that they have read.
pub data Change : Type 0 where
  failing : String → Change
  replaying retrying : Change

pub record Pending : Type 0 where
  pub id : ℕ
  pub job : Job
  pub change : Change

-- `if (!job || job.status !== "dead") return null`, of which `fail` asks for the job alone.
abbrev pub goes_on : Change → Job → Bool
goes_on (failing error) job = true
goes_on replaying job = is_dead job.status
goes_on retrying job = is_dead job.status

-- Their reads.
unfoldable pub read_row : ℕ → Change → Table → Option Pending
read_row id c jobs = elim (find_unique id jobs) [
  | none ↦ none
  | some job ↦ if goes_on c job then some (record { id = id; job = job; change = c }) else none
]

-- The row that is written.
unfoldable pub written_row : ℕ → Job → Change → Job → Job
written_row now job (failing error) = failed_row now error job
written_row now job replaying = replayed_row now job
written_row now job retrying = retried_row now job

unfoldable pub write_row : ℕ → Pending → Table → Table
write_row now p jobs = update (written_row now p.job p.change) p.id jobs

-- The three methods, with what others do to the table between the read and the write.
unfoldable pub fail : (Table → Table) → ℕ → ℕ → String → Table → Table
fail others now id error jobs = elim (read_row id (failing error) jobs) [
  | none ↦ jobs
  | some p ↦ write_row now p (others jobs)
]

unfoldable pub replay : (Table → Table) → ℕ → ℕ → Table → Option Job × Table
replay others now id jobs = elim (read_row id replaying jobs) [
  | none ↦ (none, jobs)
  | some p ↦ (let jobs' = write_row now p (others jobs) in (find_unique id jobs', jobs'))
]

unfoldable pub retry_dead_letter : (Table → Table) → ℕ → ℕ → Table → Option Job × Table
retry_dead_letter others now id jobs = elim (read_row id retrying jobs) [
  | none ↦ (none, jobs)
  | some p ↦ (let jobs' = write_row now p (others jobs) in (find_unique id jobs', jobs'))
]

abbrev pub is_purged : ℕ → Job → Bool
is_purged cutoff j = is_dead j.status && ltb j.updated_at cutoff

-- `purgeDeadLetterJobs`, from the cutoff on: the count and the table.
unfoldable pub purge_dead_letter_jobs : ℕ → Table → ℕ × Table
purge_dead_letter_jobs cutoff jobs =
    (length (select (is_purged cutoff) jobs), select (λ j. not (is_purged cutoff j)) jobs)

-- `new BackgroundJobService`: the concurrency, from the parsed setting.
unfoldable pub concurrency_of : Option ℕ → ℕ
concurrency_of none = 3
concurrency_of (some n) = if ltb 0 n then n else 3
