-- ===== src/Jobs/Histories.antt =====
-- apps/api/src/lib/background-job.service.ts: histories of what the workers and the operators do. The
-- methods that read a row and then write it are two steps each, `begins` and `writes`, so that other
-- steps may come between. The conditional update of a claim is one step, of any job, on a candidate
-- that may have been read long ago.
use soroban_dev_console.Shared.{ℕ, zero, suc, Option, none, some, List, [], ◌∷◌, get_elem?}
use soroban_dev_console.Jobs.{
  EnqueueJobOptions, Table, or_default, enqueue, try_claim, complete, purge_dead_letter_jobs,
  Change, Pending, read_row, write_row,
}

-- The table, and what was read and is still to be written.
pub record System : Type 0 where
  pub jobs : Table
  pub pending : List Pending

-- `writes i` is the write of the `i`-th of the methods that are under way.
pub data Action : Type 0 where
  enqueues : ℕ → EnqueueJobOptions → Action
  claims completes purges writes : ℕ → Action
  begins : ℕ → Change → Action

abbrev pub remove_at : ℕ → List Pending → List Pending
remove_at i [] = []
remove_at zero (p ∷ ps) = ps
remove_at (suc i) (p ∷ ps) = p ∷ remove_at i ps

abbrev pub under_way : Option Pending → List Pending → List Pending
under_way none ps = ps
under_way (some p) ps = p ∷ ps

abbrev pub finished : ℕ → ℕ → Option Pending → System → System
finished now i none s = s
finished now i (some p) s = record {
  jobs = write_row now p s.jobs;
  pending = remove_at i s.pending;
}

unfoldable pub step : System → ℕ × Action → System
step s (now, enqueues id o) = record s { jobs = enqueue now id o s.jobs }
step s (now, claims id) = record s { jobs = (try_claim now id s.jobs).1 }
step s (now, completes id) = record s { jobs = or_default (complete now id s.jobs) s.jobs }
step s (now, purges cutoff) = record s { jobs = (purge_dead_letter_jobs cutoff s.jobs).1 }
step s (now, begins id c) = record s { pending = under_way (read_row id c s.jobs) s.pending }
step s (now, writes i) = finished now i (get_elem? s.pending i) s

unfoldable pub run : System → List (ℕ × Action) → System
run s [] = s
run s (c ∷ cs) = run (step s c) cs
