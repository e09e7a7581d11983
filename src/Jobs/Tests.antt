-- ===== src/Jobs/Tests.antt =====
-- apps/api/src/lib/background-job.service.ts: the results at concrete tables.

use soroban_dev_console.Shared.{ℕ, ◌≡◌, refl, true, false, none, some, List, [], ◌∷◌, arith, All}
use soroban_dev_console.Jobs.{
  pending, dead, Job, EnqueueJobOptions, Table, find_unique, try_claim, failing, replaying, enqueue,
  claimed, read_row, write_row, written_row, replayed_row, update,
}
use soroban_dev_console.Jobs.Histories.{
  System, Action, enqueues, claims, purges, begins, writes, step, run,
}
use soroban_dev_console.Jobs.Limits.{IsBounded}
use soroban_dev_console.Jobs.Attempts.{IsCareful, run-IsBounded}
use soroban_dev_console.Jobs.Claims.{try_claim-exclusive}

abbrev job : Job
job = record {
  id = 1;
  kind = "export";
  status = pending;
  queue = "default";
  priority = 0;
  attempts = 0;
  max_attempts = 2;
  last_error = none;
  scheduled_at = 5;
  locked_until = none;
  completed_at = none;
  dead_letter_at = none;
  dead_letter_reason = none;
  updated_at = 5;
}

abbrev urgent : Job
urgent = record job { id = 2; priority = 7 }

abbrev dead_job : Job
dead_job = record job { id = 3; status = dead; queue = "dead_letter"; attempts = 2 }

abbrev table : Table
table = job ∷ urgent ∷ dead_job ∷ []

abbrev options : EnqueueJobOptions
options = record {
  kind = "export";
  max_attempts = some 1;
  scheduled_at = none;
  queue = none;
  priority = none;
}

abbrev start : Table → System
start jobs = record { jobs = jobs; pending = [] }

-- The failure of 1 and the replay of 3 overlap; 4 is claimed between the two writes.
abbrev history : List (ℕ × Action)
history =
    (10, enqueues 4 options)
    ∷ (11, claims 1)
    ∷ (12, begins 1 (failing "no route"))
    ∷ (13, begins 3 replaying)
    ∷ (14, writes 1)
    ∷ (15, claims 4)
    ∷ (16, writes 0)
    ∷ []

history-IsCareful : IsCareful (start table) history
unfolding step enqueue try_claim claimed read_row write_row update
history-IsCareful =
    (omega arith, (tt, ((tt, (λ j e. ground (arith, e))), (tt, (tt, (tt, (tt, tt)))))))

run-IsBounded_example : All IsBounded (run (start table) history).jobs
run-IsBounded_example =
    run-IsBounded table history history-IsCareful (ground arith, (ground arith, (ground arith, tt)))

abbrev others : List (ℕ × Action)
others =
    (11, begins 2 (failing "no route"))
    ∷ (12, begins 1 replaying)
    ∷ (13, writes 0)
    ∷ (90000, purges 90000)
    ∷ []

try_claim-exclusive_example :
    let t = run (record (start table) { jobs = (try_claim 10 1 table).1 }) others in
    ((try_claim 99999 1 t.jobs).0 ≡ false)
    × (find_unique 1 t.jobs ≡ find_unique 1 (try_claim 10 1 table).1)
unfolding try_claim
try_claim-exclusive_example =
    try_claim-exclusive 10 99999 1 (start table) others refl tt (omega arith, (tt, (tt, (tt, tt))))

-- Two replays of a dead job read it before either writes: the job is claimed twice.
replay_race :
    let s =
      run
        (start table)
        ((10, begins 3 replaying) ∷ (11, begins 3 replaying) ∷ (12, writes 0) ∷ []) in
    let t = run (record s { jobs = (try_claim 13 3 s.jobs).1 }) ((14, writes 0) ∷ []) in
    ((try_claim 13 3 s.jobs).0 ≡ true) × ((try_claim 15 3 t.jobs).0 ≡ true)
unfolding run step read_row write_row written_row update try_claim claimed replayed_row
replay_race = (refl, refl)
