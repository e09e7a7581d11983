-- ===== src/Jobs/Attempts.antt =====
-- apps/api/src/lib/background-job.service.ts: no job is attempted more often than it may be.

use soroban_dev_console.Shared.{
  ap, ◌∙◌, ℕ, ◌<◌, ◌≡◌, ◌≢◌, refl, true, false, not, some, List, [], ◌∷◌, arith, get_elem?, All,
  All-append, All-select, Bool-cases, Option-cases, inl, inr,
}
use soroban_dev_console.Jobs.{
  running, Job, Table, or_default, is_dead, find_unique, enqueue, is_purged, purge_dead_letter_jobs,
  Change, failing, replaying, retrying, Pending, goes_on, read_row, written_row, write_row,
}
use soroban_dev_console.Jobs.Histories.{
  System, Action, enqueues, claims, completes, purges, begins, writes, remove_at, step, run,
}
use soroban_dev_console.Jobs.Rows.{read_row-some, pending-at, write_row-other}
use soroban_dev_console.Jobs.Limits.{
  is_failing, All-update, All-update_found, IsBounded, complete-IsBounded, try_claim-IsBounded,
  written_row-failing, written_row-reviving,
}
use soroban_dev_console.Jobs.UnderWay.{
  Apart, All-map, All-map2, Apart-at, Guarded, Intact, NotWrites, clash, step-Intact,
}

record IsSound (s : System) : Type 0 where
  bounded : All IsBounded s.jobs
  apart : Apart s.pending
  guarded : All (Guarded s.jobs) s.pending

-- A failure begins only for a job that runs, if it is there, and of which nothing is under way; the
-- limit that an `enqueue` asks for, or the default, is at least one.
abbrev pub Admissible : System → ℕ × Action → Type 0
Admissible s (now, enqueues id o) = 0 < or_default o.max_attempts 3
Admissible s (now, begins id (failing error)) =
    All (λ p. p.id ≢ id) s.pending
    × ((j : Job) → find_unique id s.jobs ≡ some j → j.status ≡ running)
Admissible s (now, other) = Unit {0}

abbrev pub IsCareful : System → List (ℕ × Action) → Type 0
IsCareful s [] = Unit {0}
IsCareful s (c ∷ cs) = Admissible s c × IsCareful (step s c) cs

write_row-IsBounded :
    (now : ℕ) (p : Pending) (jobs : Table)
    → Guarded jobs p
    → All IsBounded jobs
    → All IsBounded (write_row now p jobs)
unfolding write_row
write_row-IsBounded now p jobs g h = elim (Bool-cases (is_failing p)) [
  | inl f ↦
      let (j, found, w, d, a, m) = g f in
      All-update_found IsBounded (written_row now p.job p.change) p.id jobs j found
        (written_row-failing now p.job p.change j (ground (arith, f)) a m) h
  | inr n ↦
      All-update IsBounded (written_row now p.job p.change) p.id jobs
        (λ j v. written_row-reviving now p.job p.change j n v) h
]

written-Intact :
    (now : ℕ) (p q : Pending) (jobs : Table)
    → clash p q ≡ false
    → is_failing q ≡ true
    → Intact q jobs
    → Intact q (write_row now p jobs)
written-Intact now p q jobs far f (j, found, w, d, a, m) =
    (j, write_row-other now q.id p jobs (λ e. ground (arith, far, f, e)) ∙ found, w, d, a, m)

step-Guarded :
    (s : System) (c : ℕ × Action)
    → NotWrites c
    → IsSound s
    → All (Guarded (step s c).jobs) s.pending
step-Guarded s c u h =
    All-map (Guarded s.jobs) (Guarded (step s c).jobs) s.pending
      (λ p g f. step-Intact p s c u (g f)) h.guarded

revival-clash :
    (q : Pending) (s : System) (id : ℕ) (c : Change) (x : Job)
    → find_unique id s.jobs ≡ some x
    → is_dead x.status ≡ true
    → is_failing (record { id = id; job = x; change = c }) ≡ false
    → Guarded s.jobs q
    → clash (record { id = id; job = x; change = c }) q ≡ false
revival-clash q s id c x found d n g =
    elim (Bool-cases (clash (record { id = id; job = x; change = c }) q)) [
      | inr far ↦ far
      | inl near ↦
          let same : id ≡ q.id = ground (arith, near) in
          let (j, there, w, alive, a, m) = g (ground (arith, near, n)) in
          let row : find_unique id s.jobs ≡ some j = ap (λ k. find_unique k s.jobs) same ∙ there in
          let one : x ≡ j = ground (arith, row, found) in
          absurd (ground (arith, d, alive, ap (λ y. is_dead y.status) one))
    ]

begin-IsSound :
    (s : System) (id : ℕ) (c : Change) (now : ℕ) (x : Job)
    → Admissible s (now, begins id c)
    → find_unique id s.jobs ≡ some x
    → goes_on c x ≡ true
    → IsSound s
    → IsSound (record s { pending = record { id = id; job = x; change = c } ∷ s.pending })
begin-IsSound s id (failing error) now x (far, runs) found on h = record {
  bounded = h.bounded;
  apart = (
    All-map (λ q. q.id ≢ id)
        (λ q. clash (record { id = id; job = x; change = failing error }) q ≡ false) s.pending
        (λ q n. ground (arith, n)) far,
    h.apart,
  );
  guarded = (
    (λ f.
        let r : x.status ≡ running = runs x found in
        (x, found, ground (arith, r), ground (arith, r), refl, refl)),
    h.guarded,
  );
}
begin-IsSound s id replaying now x a found on h = record {
  bounded = h.bounded;
  apart = (
    All-map (Guarded s.jobs) _ s.pending (λ q g. revival-clash q s id replaying x found on refl g)
        h.guarded,
    h.apart,
  );
  guarded = ((λ f. absurd (ground (arith, f))), h.guarded);
}
begin-IsSound s id retrying now x a found on h = record {
  bounded = h.bounded;
  apart = (
    All-map (Guarded s.jobs) _ s.pending (λ q g. revival-clash q s id retrying x found on refl g)
        h.guarded,
    h.apart,
  );
  guarded = ((λ f. absurd (ground (arith, f))), h.guarded);
}

write-IsSound :
    (now i : ℕ) (p : Pending) (s : System)
    → get_elem? s.pending i ≡ some p
    → IsSound s
    → IsSound (record { jobs = write_row now p s.jobs; pending = remove_at i s.pending })
write-IsSound now i p s e h =
    let (guard, rest) = pending-at (Guarded s.jobs) i s.pending p e h.guarded in
    let (far, apart) = Apart-at i s.pending p e h.apart in
    record {
      bounded = write_row-IsBounded now p s.jobs guard h.bounded;
      apart = apart;
      guarded =
          All-map2 (λ q. clash p q ≡ false) (Guarded s.jobs) (Guarded (write_row now p s.jobs))
            (remove_at i s.pending) (λ q n g f. written-Intact now p q s.jobs n f (g f)) far rest;
    }

step-IsSound : (s : System) (c : ℕ × Action) → Admissible s c → IsSound s → IsSound (step s c)
unfolding step
step-IsSound s (now, enqueues id o) a h = record {
  bounded = unfold enqueue in All-append IsBounded s.jobs _ h.bounded (ground (arith, a));
  apart = h.apart;
  guarded = step-Guarded s (now, enqueues id o) tt h;
}
step-IsSound s (now, claims id) a h = record {
  bounded = try_claim-IsBounded now id s.jobs h.bounded;
  apart = h.apart;
  guarded = step-Guarded s (now, claims id) tt h;
}
step-IsSound s (now, completes id) a h = record {
  bounded = complete-IsBounded now id s.jobs h.bounded;
  apart = h.apart;
  guarded = step-Guarded s (now, completes id) tt h;
}
step-IsSound s (now, purges cutoff) a h = record {
  bounded =
      unfold purge_dead_letter_jobs in
      All-select IsBounded (λ j. not (is_purged cutoff j)) s.jobs h.bounded;
  apart = h.apart;
  guarded = step-Guarded s (now, purges cutoff) tt h;
}
step-IsSound s (now, begins id c) a h = elim (Option-cases (read_row id c s.jobs)) [
  | inl nothing ↦ rw nothing h
  | inr (p, e) ↦
      let (x, found, on, same) = read_row-some id c s.jobs p e in
      rw (e, same) (begin-IsSound s id c now x a found on h)
]
step-IsSound s (now, writes i) a h = elim (Option-cases (get_elem? s.pending i)) [
  | inl nothing ↦ rw nothing h
  | inr (p, e) ↦ rw e (write-IsSound now i p s e h)
]

run-IsSound :
    (s : System) (cs : List (ℕ × Action)) → IsCareful s cs → IsSound s → IsSound (run s cs)
unfolding run
run-IsSound s [] a h = h
run-IsSound s (c ∷ cs) (a, later) h = run-IsSound (step s c) cs later (step-IsSound s c a h)

-- From a table in which it holds, such as the empty one, with nothing under way, every history, in
-- which the reads and the writes of failures, replays and retries may interleave with all other
-- steps, keeps this: no job has been attempted more often than its limit, and a job that waits to be
-- claimed has an attempt left. A failure begins only for a running job of which nothing else is
-- between its read and its write, and jobs are enqueued with a limit of at least one. A claim is of
-- any job, on a candidate that may have been read long ago.
pub run-IsBounded :
    (jobs : Table) (cs : List (ℕ × Action))
    → IsCareful (record { jobs = jobs; pending = [] }) cs
    → All IsBounded jobs
    → All IsBounded (run (record { jobs = jobs; pending = [] }) cs).jobs
run-IsBounded jobs cs a h =
    (run-IsSound (record { jobs = jobs; pending = [] }) cs a
      (record { bounded = h; apart = tt; guarded = tt })).bounded
