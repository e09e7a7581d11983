-- ===== src/Jobs/Rows.antt =====
-- apps/api/src/lib/background-job.service.ts: what the steps of a history leave of a row.
use mathlib.Core.Path.{subst}
use soroban_dev_console.Shared.{
  ℕ, zero, suc, ◌≡◌, ◌≢◌, refl, ◌∙◌, true, false, not, none, some, List, [], ◌∷◌, ◌++◌, ◌==◌, arith,
  if◌then◌else◌, get_elem?, select, All, Bool-cases, Option-cases, inl, inr,
}
use soroban_dev_console.Jobs.{
  Job, Table, is_waiting, is_dead, find_unique, update, enqueue, claimed, try_claim, completed_row,
  complete, failed_row, replayed_row, retried_row, is_purged, purge_dead_letter_jobs, Change,
  failing, replaying, retrying, Pending, read_row, written_row, write_row, goes_on,
}
use soroban_dev_console.Jobs.Histories.{
  System, Action, enqueues, claims, completes, purges, begins, writes, remove_at, step,
}

pub find_unique-update :
    (f : Job → Job) (id k : ℕ) (jobs : Table)
    → ((j : Job) → (f j).id ≡ j.id)
    → find_unique k (update f id jobs) ≡ (
        if k == id
        then elim (find_unique id jobs) [ none ↦ none | some j ↦ some (f j) ]
        else find_unique k jobs)
unfolding update
find_unique-update f id k [] same = ground arith
find_unique-update f id k (j ∷ jobs) same =
    ground (arith, same j, find_unique-update f id k jobs same)

pub claimed-id : (now : ℕ) (j : Job) → (claimed now j).id ≡ j.id
unfolding claimed
claimed-id now j = refl

pub written_row-id : (now : ℕ) (x : Job) (c : Change) (j : Job) → (written_row now x c j).id ≡ j.id
unfolding written_row failed_row replayed_row retried_row
written_row-id now x (failing error) j = refl
written_row-id now x replaying j = refl
written_row-id now x retrying j = refl

pub find-append :
    (id : ℕ) (jobs rest : Table) (j : Job)
    → find_unique id jobs ≡ some j
    → find_unique id (jobs ++ rest) ≡ some j
find-append id [] rest j e = cc
find-append id (k ∷ jobs) rest j e = ground (arith, find-append id jobs rest j)

pub find-purge :
    (id cutoff : ℕ) (jobs : Table) (j : Job)
    → find_unique id jobs ≡ some j
    → is_dead j.status ≡ false
    → find_unique id (select (λ k. not (is_purged cutoff k)) jobs) ≡ some j
find-purge id cutoff [] j e h = cc
find-purge id cutoff (k ∷ jobs) j e h = ground (arith, find-purge id cutoff jobs j)

pub write_row-other :
    (now k : ℕ) (p : Pending) (jobs : Table)
    → p.id ≢ k
    → find_unique k (write_row now p jobs) ≡ find_unique k jobs
unfolding write_row
write_row-other now k p jobs n =
    let f = written_row now p.job p.change in
    let apart : k == p.id ≡ false = ground (arith, n) in
    find_unique-update f p.id k jobs (written_row-id now p.job p.change) ∙ rw apart refl

-- What `read_row` has read.
pub read_row-some :
    (id : ℕ) (c : Change) (jobs : Table) (p : Pending)
    → read_row id c jobs ≡ some p
    → (j : Job) × (find_unique id jobs ≡ some j)
      × (goes_on c j ≡ true)
      × (p ≡ record { id = id; job = j; change = c })
unfolding read_row
read_row-some id c jobs p e = elim (Option-cases (find_unique id jobs)) [
  | inl missing ↦ absurd (ground (arith, missing, e))
  | inr (j, found) ↦ elim (Bool-cases (goes_on c j)) [
    | inl on ↦ (j, found, on, ground (arith, found, on, e))
    | inr off ↦ absurd (ground (arith, found, off, e))
  ]
]

-- The step is neither a completion of the job nor a write of what was read of it.
abbrev pub Untouched : ℕ → System → ℕ × Action → Type 0
Untouched id s (now, completes k) = k ≢ id
Untouched id s (now, writes i) = (p : Pending) → get_elem? s.pending i ≡ some p → p.id ≢ id
Untouched id s (now, other) = Unit {0}

pub pending-at {ℓ} :
    (P : Pending → Type ℓ) (i : ℕ) (ps : List Pending) (p : Pending)
    → get_elem? ps i ≡ some p
    → All P ps
    → P p × All P (remove_at i ps)
pending-at P i [] p e h = absurd (ground (arith, e))
pending-at P zero (q ∷ ps) p e (h, hs) =
    let same : q ≡ p = ground (arith, e) in (subst P same h, hs)
pending-at P (suc i) (q ∷ ps) p e (h, hs) =
    let (here, rest) = pending-at P i ps p e hs in (here, (h, rest))

-- A row that neither waits nor is dead stays as it is.
pub step-keeps :
    (id : ℕ) (j : Job) (s : System) (c : ℕ × Action)
    → find_unique id s.jobs ≡ some j
    → is_waiting j.status ≡ false
    → is_dead j.status ≡ false
    → Untouched id s c
    → find_unique id (step s c).jobs ≡ some j
unfolding step
step-keeps id j s (now, enqueues k o) e w d u = unfold enqueue in find-append id s.jobs _ j e
step-keeps id j s (now, claims k) e w d u =
    unfold try_claim in
    ground (arith, find_unique-update (claimed now) k id s.jobs (claimed-id now))
step-keeps id j s (now, completes k) e w d u =
    unfold complete completed_row in
    ground (arith, find_unique-update (completed_row now) k id s.jobs (λ x. refl))
step-keeps id j s (now, purges cutoff) e w d u =
    unfold purge_dead_letter_jobs in find-purge id cutoff s.jobs j e d
step-keeps id j s (now, begins k c) e w d u = e
step-keeps id j s (now, writes i) e w d u = elim (Option-cases (get_elem? s.pending i)) [
  | inl missing ↦ rw missing e
  | inr (p, found) ↦ rw found (write_row-other now id p s.jobs (u p found) ∙ e)
]
