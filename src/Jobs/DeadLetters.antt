-- ===== src/Jobs/DeadLetters.antt =====
-- apps/api/src/lib/background-job.service.ts: how a job gets into the dead-letter queue and out of it.
use mathlib.Core.Path.{subst}
use soroban_dev_console.Shared.{
  ℕ, ◌+◌, ◌<◌, String, ◌≡◌, ◌≢◌, ◌⊎◌, refl, true, false, not, none, some, List, [], ◌∷◌, arith, leb,
  if◌then◌else◌, length, length-select-not, select, All, Bool-cases, inl, inr,
}
use soroban_dev_console.Jobs.{
  failed, dead, Job, Table, is_waiting, is_dead, find_unique, claimed, try_claim, failed_row, fail,
  replayed_row, replay, failing, replaying, read_row, written_row, write_row, is_purged,
  purge_dead_letter_jobs,
}
use soroban_dev_console.Jobs.Rows.{find_unique-update, claimed-id, written_row-id}

-- Rounds, nothing between their steps, of a claim of the job, at each of the times, and a failure of it.
pub rounds : ℕ → String → Table → List ℕ → Table
rounds id error jobs [] = jobs
rounds id error jobs (t ∷ ts) =
    rounds id error (fail (λ x. x) t id error (try_claim t id jobs).1) ts

find-claim :
    (t id : ℕ) (jobs : Table) (j : Job)
    → find_unique id jobs ≡ some j
    → is_waiting j.status ≡ true
    → j.locked_until ≡ none
    → find_unique id (try_claim t id jobs).1 ≡ some (claimed t j)
unfolding try_claim
find-claim t id jobs j e w free =
    ground (arith, find_unique-update (claimed t) id id jobs (claimed-id t))

pub find-fail :
    (t id : ℕ) (error : String) (jobs : Table) (j : Job)
    → find_unique id jobs ≡ some j
    → find_unique id (fail (λ x. x) t id error jobs) ≡ some (written_row t j (failing error) j)
unfolding fail read_row write_row
find-fail t id error jobs j e = ground (
  arith,
  find_unique-update (written_row t j (failing error)) id id jobs
      (written_row-id t j (failing error)),
)

-- A job that waits, unlocked, after `a` of at most `m` attempts.
abbrev pub Waiting : ℕ → ℕ → ℕ → Table → Type 0
Waiting id a m jobs =
    (j : Job) × (find_unique id jobs ≡ some j)
    × (is_waiting j.status ≡ true)
    × (j.locked_until ≡ none)
    × (j.attempts ≡ a)
    × (j.max_attempts ≡ m)

-- The row of the job after `n` attempts of at most `m` that have all failed.
abbrev pub HasFailed : ℕ → ℕ → ℕ → Table → Type 0
HasFailed id n m jobs =
    (j : Job) × (find_unique id jobs ≡ some j)
    × (j.status ≡ (if leb m n then dead else failed))
    × (j.locked_until ≡ none)
    × (j.attempts ≡ n)
    × (j.max_attempts ≡ m)

round_lem :
    (t id a m : ℕ) (error : String) (jobs : Table)
    → Waiting id a m jobs
    → HasFailed id (a + 1) m (fail (λ x. x) t id error (try_claim t id jobs).1)
unfolding written_row failed_row claimed
round_lem t id a m error jobs (j, e, w, free, at, most) = (
  written_row t (claimed t j) (failing error) (claimed t j),
  find-fail t id error (try_claim t id jobs).1 (claimed t j) (find-claim t id jobs j e w free),
  ground arith,
  refl,
  ground arith,
  most,
)

failed-Waiting : (id a m : ℕ) (jobs : Table) → a < m → HasFailed id a m jobs → Waiting id a m jobs
failed-Waiting id a m jobs h (j, e, s, free, at, most) = (j, e, ground arith, free, at, most)

rounds_from :
    (id a m : ℕ) (error : String) (jobs : Table) (t : ℕ) (ts : List ℕ)
    → a + length ts < m
    → Waiting id a m jobs
    → HasFailed id (a + length ts + 1) m (rounds id error jobs (t ∷ ts))
unfolding rounds
rounds_from id a m error jobs t [] h w =
    subst (λ n. HasFailed id n m (fail (λ x. x) t id error (try_claim t id jobs).1)) (omega arith)
      (round_lem t id a m error jobs w)
rounds_from id a m error jobs t (u ∷ ts) h w =
    let jobs' = fail (λ x. x) t id error (try_claim t id jobs).1 in
    let again = failed-Waiting id (a + 1) m jobs' (omega arith) (round_lem t id a m error jobs w) in
    subst (λ n. HasFailed id n m (rounds id error jobs' (u ∷ ts))) (omega arith)
      (rounds_from id (a + 1) m error jobs' u ts (omega arith) again)

-- A job that waits, unlocked, with none of its attempts used is put into the dead-letter state by
-- the failure of its last attempt, and by no earlier one: after each number of failed attempts up
-- to the limit its status is "failed" below the limit and "dead" at the limit.
pub rounds-dead :
    (id m : ℕ) (error : String) (jobs : Table) (t : ℕ) (ts : List ℕ)
    → length ts < m
    → Waiting id 0 m jobs
    → HasFailed id (length ts + 1) m (rounds id error jobs (t ∷ ts))
rounds-dead id m error jobs t ts h w =
    subst (λ n. HasFailed id n m (rounds id error jobs (t ∷ ts))) (omega arith)
      (rounds_from id 0 m error jobs t ts (omega arith) w)

-- A replay between whose read and write nothing comes changes the table only for a job that is dead, whose row it makes wait again with no
-- attempt used, no lock and no error, due at once; otherwise it answers null.
pub replay-revives :
    (now id k : ℕ) (jobs : Table) (j : Job)
    → find_unique id jobs ≡ some j
    → let (answer, jobs') = replay (λ x. x) now id jobs in
      ((j.status ≢ dead) × (answer ≡ none) × (jobs' ≡ jobs))
      ⊎ ((j.status ≡ dead)
          × (answer ≡ find_unique id jobs')
          × Waiting id 0 j.max_attempts jobs'
          × ((k ≡ id) ⊎ (find_unique k jobs' ≡ find_unique k jobs)))
unfolding replay read_row write_row
replay-revives now id k jobs j e = elim (Bool-cases (is_dead j.status)) [
  | inl is ↦
      let written =
        find_unique-update (written_row now j replaying) id id jobs
          (written_row-id now j replaying) in
      inr (
        ground arith,
        ground arith,
        (
          written_row now j replaying j,
          ground (arith, written),
          unfold written_row replayed_row in refl,
          unfold written_row replayed_row in refl,
          unfold written_row replayed_row in refl,
          unfold written_row replayed_row in refl,
        ),
        ground (
          arith,
          find_unique-update (written_row now j replaying) id k jobs
              (written_row-id now j replaying),
        ),
      )
  | inr isnt ↦ inl (ground arith, ground arith, ground arith)
]

purged-none :
    (cutoff : ℕ) (jobs : Table)
    → All (λ j. is_purged cutoff j ≡ false) (select (λ j. not (is_purged cutoff j)) jobs)
purged-none cutoff [] = tt
purged-none cutoff (j ∷ jobs) = ground (arith, purged-none cutoff jobs)

-- The purge returns the number of the jobs that it has removed, and leaves no dead job that was
-- last written before the cutoff.
pub purge_dead_letter_jobs-count :
    (cutoff : ℕ) (jobs : Table)
    → let (count, jobs') = purge_dead_letter_jobs cutoff jobs in
      (count + length jobs' ≡ length jobs) × All (λ j. is_purged cutoff j ≡ false) jobs'
unfolding purge_dead_letter_jobs
purge_dead_letter_jobs-count cutoff jobs =
    (length-select-not (is_purged cutoff) jobs, purged-none cutoff jobs)

-- A job that is not dead, or was written at the cutoff or later, outlasts the purge unchanged.
pub purge_dead_letter_jobs-keeps :
    (cutoff id : ℕ) (jobs : Table) (j : Job)
    → find_unique id jobs ≡ some j
    → is_purged cutoff j ≡ false
    → find_unique id (purge_dead_letter_jobs cutoff jobs).1 ≡ some j
unfolding purge_dead_letter_jobs
purge_dead_letter_jobs-keeps cutoff id [] j e h = cc
purge_dead_letter_jobs-keeps cutoff id (k ∷ jobs) j e h =
    ground (arith, purge_dead_letter_jobs-keeps cutoff id jobs j)
