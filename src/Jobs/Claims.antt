-- ===== src/Jobs/Claims.antt =====
-- apps/api/src/lib/background-job.service.ts: which job `claimNext` takes, and that one worker has it.
use mathlib.Core.List.{Memᴰ}
use mathlib.Core.Path.{subst}
use soroban_dev_console.Shared.{
  ℕ, String, ◌≡◌, ◌≢◌, refl, sym, ap, ◌∙◌, get_elem?, true, false, Option, none, some, List, [],
  ◌∷◌, arith, if◌then◌else◌, select-Mem, select, All, Bool-cases, Option-cases, inl, inr,
}
use soroban_dev_console.Jobs.{
  running, Job, Table, is_waiting, is_dead, is_unlocked, find_unique, update, claimed, try_claim,
  find_candidate, first_of_rows, comes_before, is_claimable, Change, failing, replaying, retrying,
  goes_on, read_row,
}
use soroban_dev_console.Jobs.Histories.{
  System, Action, enqueues, claims, completes, purges, begins, writes, under_way, step, run,
}
use soroban_dev_console.Jobs.Rows.{
  find_unique-update, claimed-id, read_row-some, pending-at, Untouched, step-keeps,
}

-- Rows in the order of `claimNext`: none of them comes before the row `c`.
abbrev pub NoneBefore : Job → List Job → Type 0
NoneBefore c jobs = All (λ j. comes_before j c ≡ false) jobs

comes_before-irreflexive : (j : Job) → comes_before j j ≡ false
unfolding comes_before
comes_before-irreflexive j = ground arith

comes_before-asymmetric : (j k : Job) → comes_before k j ≡ true → comes_before j k ≡ false
unfolding comes_before
comes_before-asymmetric j k h = ground arith

-- If neither `k` comes before `j` nor `x` before `k`, then `x` does not come before `j`.
comes_before-weak :
    (x j k : Job) → comes_before k j ≡ false → comes_before x k ≡ false → comes_before x j ≡ false
unfolding comes_before
comes_before-weak x j k h g = ground arith

NoneBefore-weak :
    (j k : Job) (jobs : List Job) → comes_before k j ≡ false → NoneBefore k jobs → NoneBefore j jobs
NoneBefore-weak j k [] h a = tt
NoneBefore-weak j k (x ∷ jobs) h (a, as₁) =
    (comes_before-weak x j k h a, NoneBefore-weak j k jobs h as₁)

-- The first row in the order.
abbrev pub IsFirst : Job → List Job → Type 0
IsFirst c jobs = Memᴰ c jobs × NoneBefore c jobs

IsFirst-cons :
    (j k : Job) (jobs : List Job) (c : Job)
    → IsFirst k jobs
    → (if comes_before k j then some k else some j) ≡ some c
    → IsFirst c (j ∷ jobs)
IsFirst-cons j k jobs c (m, h) e = elim (Bool-cases (comes_before k j)) [
  | inl q ↦
      let same : k ≡ c = ground arith in
      subst (λ x. IsFirst x (j ∷ jobs)) same (Memᴰ.tail m, (comes_before-asymmetric j k q, h))
  | inr q ↦
      let same : j ≡ c = ground arith in
      subst (λ x. IsFirst x (j ∷ jobs)) same
        (Memᴰ.head refl, (comes_before-irreflexive j, NoneBefore-weak j k jobs q h))
]

first_of_rows-none : (jobs : List Job) → first_of_rows jobs ≡ none → jobs ≡ []
unfolding first_of_rows
first_of_rows-none [] e = refl
first_of_rows-none (j ∷ jobs) e = ground arith

first_of_rows-IsFirst : (jobs : List Job) (c : Job) → first_of_rows jobs ≡ some c → IsFirst c jobs
unfolding first_of_rows
first_of_rows-IsFirst [] c e = cc
first_of_rows-IsFirst (j ∷ jobs) c e = elim (Option-cases (first_of_rows jobs)) [
  | inl none_left ↦
      let alone = first_of_rows-none jobs none_left in
      let same : j ≡ c = ground arith in
      subst (λ x. IsFirst x (j ∷ jobs)) same
        (Memᴰ.head refl, (comes_before-irreflexive j, rw alone tt))
  | inr (k, found) ↦ IsFirst-cons j k jobs c (first_of_rows-IsFirst jobs k found) (rw found at e)
]

module _ (now id : ℕ) (jobs : Table) where
  no_row : find_unique id jobs ≡ none → ¬ ((try_claim now id jobs).0 ≡ true)
  unfolding try_claim
  no_row e h = ground arith

  -- What a claim that succeeds has found and has written.
  try_claim-true :
      (try_claim now id jobs).0 ≡ true
      → (j : Job) × (find_unique id jobs ≡ some j)
        × (is_waiting j.status ≡ true)
        × (is_unlocked now j ≡ true)
        × ((try_claim now id jobs).1 ≡ update (claimed now) id jobs)
  unfolding try_claim
  try_claim-true h = elim (Option-cases (find_unique id jobs)) [
    | inl e ↦ absurd (no_row e h)
    | inr (j, e) ↦ (j, e, ground arith, ground arith, ground arith)
  ]

claimed-running : (now : ℕ) (j : Job) → (claimed now j).status ≡ running
unfolding claimed
claimed-running now j = refl

-- The job is held by the claim that has left its row as `j`: it runs, and no method that has read
-- its row is still to write it.
record Holds (id : ℕ) (j : Job) (s : System) : Type 0 where
  there : find_unique id s.jobs ≡ some j
  runs : j.status ≡ running
  alone : All (λ p. p.id ≢ id) s.pending

-- No completion of the job is among the steps, and no beginning of a failure of it.
abbrev pub Unfinished : ℕ → ℕ × Action → Type 0
Unfinished id (now, completes k) = k ≢ id
Unfinished id (now, begins k (failing error)) = k ≢ id
Unfinished id (now, other) = Unit {0}

revival-alone :
    (id k : ℕ) (c : Change) (j : Job) (s : System)
    → Holds id j s
    → ((x : Job) → goes_on c x ≡ is_dead x.status)
    → All (λ p. p.id ≢ id) (under_way (read_row k c s.jobs) s.pending)
revival-alone id k c j s h dead_only = elim (Option-cases (read_row k c s.jobs)) [
  | inl nothing ↦ rw nothing h.alone
  | inr (p, e) ↦
      let (x, found, on, same) = read_row-some k c s.jobs p e in
      rw e (
        (λ own.
            let here : k ≡ id = ap (λ q. q.id) (sym same) ∙ own in
            let at_id : find_unique id s.jobs ≡ some x =
              subst (λ n. find_unique n s.jobs ≡ some x) here found in
            let row : x ≡ j = ground (arith, at_id, h.there) in
            let is : is_dead j.status ≡ true =
              ap (λ y. is_dead y.status) (sym row) ∙ sym (dead_only x) ∙ on in
            absurd (ground (arith, is, h.runs))),
        h.alone,
      )
]

step-alone :
    (id : ℕ) (j : Job) (s : System) (c : ℕ × Action)
    → Unfinished id c
    → Holds id j s
    → All (λ p. p.id ≢ id) (step s c).pending × Untouched id s c
unfolding step
step-alone id j s (now, enqueues k o) u h = (h.alone, tt)
step-alone id j s (now, claims k) u h = (h.alone, tt)
step-alone id j s (now, completes k) u h = (h.alone, u)
step-alone id j s (now, purges cutoff) u h = (h.alone, tt)
step-alone id j s (now, begins k (failing error)) u h = (
  elim (Option-cases (read_row k (failing error) s.jobs)) [
    | inl nothing ↦ rw nothing h.alone
    | inr (p, e) ↦
        let (x, found, on, same) = read_row-some k (failing error) s.jobs p e in
        rw e ((λ own. u (ap (λ q. q.id) (sym same) ∙ own)), h.alone)
  ],
  tt,
)
step-alone id j s (now, begins k replaying) u h =
    (revival-alone id k replaying j s h (λ x. refl), tt)
step-alone id j s (now, begins k retrying) u h = (revival-alone id k retrying j s h (λ x. refl), tt)
step-alone id j s (now, writes i) u h = (
  elim (Option-cases (get_elem? s.pending i)) [
    | inl nothing ↦ rw nothing h.alone
    | inr (p, e) ↦ rw e ((pending-at (λ q. q.id ≢ id) i s.pending p e h.alone).1)
  ],
  (λ p e. (pending-at (λ q. q.id ≢ id) i s.pending p e h.alone).0),
)

step-Holds :
    (id : ℕ) (j : Job) (s : System) (c : ℕ × Action)
    → Unfinished id c
    → Holds id j s
    → Holds id j (step s c)
step-Holds id j s c u h =
    let (alone, untouched) = step-alone id j s c u h in
    record {
      there =
          step-keeps id j s c h.there (ground (arith, h.runs)) (ground (arith, h.runs)) untouched;
      runs = h.runs;
      alone = alone;
    }

run-Holds :
    (id : ℕ) (j : Job) (s : System) (cs : List (ℕ × Action))
    → All (Unfinished id) cs
    → Holds id j s
    → Holds id j (run s cs)
unfolding run
run-Holds id j s [] u h = h
run-Holds id j s (c ∷ cs) (u, us) h = run-Holds id j (step s c) cs us (step-Holds id j s c u h)

running-refused :
    (later id : ℕ) (jobs : Table) (j : Job)
    → find_unique id jobs ≡ some j
    → j.status ≡ running
    → (try_claim later id jobs).0 ≡ false
unfolding try_claim
running-refused later id jobs j e h = ground (arith, e, h)

-- A job that a worker has claimed while no failure, replay or retry of it was between its read and
-- its write is claimed by nobody else, at any time and after any steps of others, in which reads and
-- writes may interleave, as long as it is not completed and no failure of it begins; until then its
-- row stays as the claim has left it. The expiry of the lock makes no difference.
pub try_claim-exclusive :
    (now later id : ℕ) (s : System) (cs : List (ℕ × Action))
    → (try_claim now id s.jobs).0 ≡ true
    → All (λ p. p.id ≢ id) s.pending
    → All (Unfinished id) cs
    → let t = run (record s { jobs = (try_claim now id s.jobs).1 }) cs in
      ((try_claim later id t.jobs).0 ≡ false)
      × (find_unique id t.jobs ≡ find_unique id (try_claim now id s.jobs).1)
try_claim-exclusive now later id s cs h alone u =
    let (j, found, waits, free, after) = try_claim-true now id s.jobs h in
    let start : System = record s { jobs = (try_claim now id s.jobs).1 } in
    let held : Holds id (claimed now j) start = record {
      there =
          rw after
            (ground (arith, found, find_unique-update (claimed now) id id s.jobs (claimed-id now)));
      runs = claimed-running now j;
      alone = alone;
    } in
    let kept = run-Holds id (claimed now j) start cs u held in
    (
      running-refused later id (run start cs).jobs (claimed now j) kept.there kept.runs,
      kept.there ∙ sym held.there,
    )

-- The job that `claimNext` picks is in the table and can be claimed, and no job that can be claimed
-- has a higher priority, or the same priority and an earlier schedule.
pub find_candidate-first :
    (now : ℕ) (kind : String) (queue : Option String) (jobs : Table) (c : Job)
    → find_candidate now kind queue jobs ≡ some c
    → Memᴰ c jobs
      × (is_claimable now kind queue c ≡ true)
      × All (λ j. comes_before j c ≡ false) (select (is_claimable now kind queue) jobs)
unfolding find_candidate
find_candidate-first now kind queue jobs c e =
    let (m, before) = first_of_rows-IsFirst (select (is_claimable now kind queue) jobs) c e in
    let (listed, claimable) = select-Mem (is_claimable now kind queue) jobs c m in
    (listed, claimable, before)
