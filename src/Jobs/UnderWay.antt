-- ===== src/Jobs/UnderWay.antt =====
-- apps/api/src/lib/background-job.service.ts: the methods between their read and their write.
use mathlib.Core.Path.{subst}
use soroban_dev_console.Shared.{
  ap, ◌∙◌, ℕ, zero, suc, ◌≡◌, refl, Bool, true, false, ◌&&◌, ◌||◌, none, some, List, [], ◌∷◌, ◌==◌,
  arith, get_elem?, All, Bool-cases, inl, inr,
}
use soroban_dev_console.Jobs.{
  completed, Job, Table, or_default, is_waiting, is_dead, find_unique, completed_row, complete,
  Pending,
}
use soroban_dev_console.Jobs.Histories.{
  System, Action, enqueues, claims, completes, purges, begins, writes, remove_at, step,
}
use soroban_dev_console.Jobs.Rows.{find_unique-update, pending-at, step-keeps}
use soroban_dev_console.Jobs.Limits.{is_failing}

-- The row of a failure under way: it neither waits nor is dead, and has the attempts and the limit
-- that were read.
abbrev pub Intact : Pending → Table → Type 0
Intact p jobs =
    (j : Job) × (find_unique p.id jobs ≡ some j)
    × (is_waiting j.status ≡ false)
    × (is_dead j.status ≡ false)
    × (j.attempts ≡ p.job.attempts)
    × (j.max_attempts ≡ p.job.max_attempts)

abbrev pub clash : Pending → Pending → Bool
clash p q = (p.id == q.id) && (is_failing p || is_failing q)

abbrev pub Apart : List Pending → Type 0
Apart [] = Unit {0}
Apart (p ∷ ps) = All (λ q. clash p q ≡ false) ps × Apart ps

abbrev pub Guarded : Table → Pending → Type 0
Guarded jobs p = is_failing p ≡ true → Intact p jobs

clash-sym : (p q : Pending) → clash p q ≡ false → clash q p ≡ false
clash-sym p q h = ground (arith, h)

pub All-map {ℓ κ} :
    {A : Type ℓ} (P Q : A → Type κ) (xs : List A) → ((x : A) → P x → Q x) → All P xs → All Q xs
All-map P Q [] f h = tt
All-map P Q (x ∷ xs) f (p, h) = (f x p, All-map P Q xs f h)

pub All-map2 {ℓ κ} :
    {A : Type ℓ} (P Q R : A → Type κ) (xs : List A)
    → ((x : A) → P x → Q x → R x)
    → All P xs
    → All Q xs
    → All R xs
All-map2 P Q R [] f h g = tt
All-map2 P Q R (x ∷ xs) f (p, h) (q, g) = (f x p q, All-map2 P Q R xs f h g)

pub Apart-at :
    (i : ℕ) (ps : List Pending) (p : Pending)
    → get_elem? ps i ≡ some p
    → Apart ps
    → All (λ q. clash p q ≡ false) (remove_at i ps) × Apart (remove_at i ps)
Apart-at i [] p e h = absurd (ground (arith, e))
Apart-at zero (q ∷ ps) p e (h, hs) =
    let same : q ≡ p = ground (arith, e) in
    (subst (λ x. All (λ y. clash x y ≡ false) ps) same h, hs)
Apart-at (suc i) (q ∷ ps) p e (h, hs) =
    let (far, rest) = Apart-at i ps p e hs in
    let (here, others) = pending-at (λ y. clash q y ≡ false) i ps p e h in
    ((clash-sym q p here, far), (others, rest))

completed-Intact :
    (now k : ℕ) (p : Pending) (jobs : Table)
    → k == p.id ≡ true
    → Intact p jobs
    → Intact p (or_default (complete now k jobs) jobs)
unfolding complete completed_row
completed-Intact now k p jobs e (j, found, w, d, a, m) =
    let same : k ≡ p.id = ground (arith, e) in
    let there : find_unique k jobs ≡ some j = ap (λ n. find_unique n jobs) same ∙ found in
    (
      record j {
        status = completed;
        completed_at = some now;
        locked_until = none;
        last_error = none;
        updated_at = now;
      },
      ground (arith, there, e, find_unique-update (completed_row now) k p.id jobs (λ x. refl)),
      refl,
      refl,
      a,
      m,
    )

-- The step is not the write of what was read.
abbrev pub NotWrites : ℕ × Action → Type 0
NotWrites (now, writes i) = true ≡ false
NotWrites (now, other) = Unit {0}

pub step-Intact :
    (p : Pending) (s : System) (c : ℕ × Action)
    → NotWrites c
    → Intact p s.jobs
    → Intact p (step s c).jobs
step-Intact p s (now, completes k) u (j, found, w, d, a, m) = elim (Bool-cases (k == p.id)) [
  | inl e ↦ unfold step in completed-Intact now k p s.jobs e (j, found, w, d, a, m)
  | inr n ↦ (
    j,
    step-keeps p.id j s (now, completes k) found w d (λ e. absurd (ground (arith, n, e))),
    w,
    d,
    a,
    m,
  )
]
step-Intact p s (now, writes i) u whole = absurd (ground (arith, u))
step-Intact p s (now, enqueues k o) u (j, found, w, d, a, m) =
    (j, step-keeps p.id j s (now, enqueues k o) found w d tt, w, d, a, m)
step-Intact p s (now, claims k) u (j, found, w, d, a, m) =
    (j, step-keeps p.id j s (now, claims k) found w d tt, w, d, a, m)
step-Intact p s (now, purges cutoff) u (j, found, w, d, a, m) =
    (j, step-keeps p.id j s (now, purges cutoff) found w d tt, w, d, a, m)
step-Intact p s (now, begins k c) u (j, found, w, d, a, m) =
    (j, step-keeps p.id j s (now, begins k c) found w d tt, w, d, a, m)
