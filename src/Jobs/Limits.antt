-- ===== src/Jobs/Limits.antt =====
-- apps/api/src/lib/background-job.service.ts: the rows within their limits, and what is written to one.

use soroban_dev_console.Shared.{
  ℕ, ◌≤◌, ◌<◌, String, ◌≡◌, Bool, true, false, some, [], ◌∷◌, arith, All, Option-cases, inl, inr,
}
use soroban_dev_console.Jobs.{
  Job, Table, or_default, is_waiting, find_unique, update, claimed, try_claim, completed_row,
  complete, failed_row, replayed_row, retried_row, Change, failing, replaying, retrying, Pending,
  written_row,
}

-- A job that waits has an attempt left, and no job has had more than its limit.
pub record IsBounded (j : Job) : Type 0 where
  pub within : j.attempts ≤ j.max_attempts
  pub left : is_waiting j.status ≡ true → j.attempts < j.max_attempts
  pub positive : 0 < j.max_attempts

pub All-update_found {ℓ} :
    (P : Job → Type ℓ) (f : Job → Job) (id : ℕ) (jobs : Table) (job : Job)
    → find_unique id jobs ≡ some job
    → (P job → P (f job))
    → All P jobs
    → All P (update f id jobs)
unfolding update
All-update_found P f id [] job e keep h = tt
All-update_found P f id (j ∷ jobs) job e keep (p, h) =
    ground (arith, keep, p, h, All-update_found P f id jobs job)

claimed-IsBounded :
    (now : ℕ) (j : Job) → is_waiting j.status ≡ true → IsBounded j → IsBounded (claimed now j)
unfolding claimed
claimed-IsBounded now j w v = ground (arith, v.left)

pub All-update {ℓ} :
    (P : Job → Type ℓ) (f : Job → Job) (id : ℕ) (jobs : Table)
    → ((j : Job) → P j → P (f j))
    → All P jobs
    → All P (update f id jobs)
unfolding update
All-update P f id [] keep h = tt
All-update P f id (j ∷ jobs) keep (p, h) =
    ground (arith, keep j p, p, h, All-update P f id jobs keep h)

-- The failure writes over a row that has the attempts and the limit that it has read.
failed_row-IsBounded :
    (now : ℕ) (error : String) (x j : Job)
    → j.attempts ≡ x.attempts
    → j.max_attempts ≡ x.max_attempts
    → IsBounded j
    → IsBounded (failed_row now error x j)
unfolding failed_row
failed_row-IsBounded now error x j a m v = ground arith

pub try_claim-IsBounded :
    (now id : ℕ) (jobs : Table) → All IsBounded jobs → All IsBounded (try_claim now id jobs).1
unfolding try_claim
try_claim-IsBounded now id jobs h = elim (Option-cases (find_unique id jobs)) [
  | inl e ↦ ground (arith, e, h)
  | inr (j, e) ↦
      ground
        (arith, e, h, All-update_found IsBounded (claimed now) id jobs j e, claimed-IsBounded now j)
]

pub complete-IsBounded :
    (now id : ℕ) (jobs : Table)
    → All IsBounded jobs
    → All IsBounded (or_default (complete now id jobs) jobs)
unfolding complete completed_row
complete-IsBounded now id jobs h = elim (Option-cases (find_unique id jobs)) [
  | inl e ↦ rw (e, complete) h
  | inr (j, e) ↦
      rw (e, complete)
        (All-update_found IsBounded (completed_row now) id jobs j e (λ v. ground arith) h)
]

abbrev pub is_failing : Pending → Bool
is_failing p = elim p.change [ failing error ↦ true | _ ↦ false ]

pub written_row-failing :
    (now : ℕ) (x : Job) (c : Change) (j : Job)
    → is_failing (record { id = 0; job = x; change = c }) ≡ true
    → j.attempts ≡ x.attempts
    → j.max_attempts ≡ x.max_attempts
    → IsBounded j
    → IsBounded (written_row now x c j)
unfolding written_row
written_row-failing now x (failing error) j f a m v = failed_row-IsBounded now error x j a m v
written_row-failing now x replaying j f a m v = absurd (ground (arith, f))
written_row-failing now x retrying j f a m v = absurd (ground (arith, f))

pub written_row-reviving :
    (now : ℕ) (x : Job) (c : Change) (j : Job)
    → is_failing (record { id = 0; job = x; change = c }) ≡ false
    → IsBounded j
    → IsBounded (written_row now x c j)
unfolding written_row replayed_row retried_row
written_row-reviving now x (failing error) j n v = absurd (ground (arith, n))
written_row-reviving now x replaying j n v = ground (arith, v.positive)
written_row-reviving now x retrying j n v = ground (arith, v.positive)
