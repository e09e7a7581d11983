-- ===== src/Coalescer/Sharing.antt =====
-- apps/api/src/lib/request-coalescer.ts: which calls share a promise.
use soroban_dev_console.Shared.{
  ℕ, ◌+◌, ◌≡◌, ◌≢◌, String, false, some, List, [], ◌∷◌, arith, eq_iff, str_eq_self, lookup,
  lookup-insert, lookup-delete, All,
}
use soroban_dev_console.Coalescer.{Coalescer, run, settled, Event, runs, settles, step, run_all}

-- The promise of the key has not settled.
abbrev pub Unsettled : String → Event → Type 0
Unsettled key e = e ≢ settles key

step-kept :
    (key : String) (p : ℕ) (e : Event) (c : Coalescer)
    → Unsettled key e
    → lookup key c.inflight ≡ some p
    → lookup key (step c e).inflight ≡ some p
unfolding step run settled
step-kept key p (runs j fresh) c u h =
    ground (arith, eq_iff j key, lookup-insert j key fresh c.inflight)
step-kept key p (settles j) c u h = ground (arith, eq_iff j key, lookup-delete j key c.inflight)

run_all-kept :
    (key : String) (p : ℕ) (es : List Event) (c : Coalescer)
    → All (Unsettled key) es
    → lookup key c.inflight ≡ some p
    → lookup key (run_all c es).inflight ≡ some p
unfolding run_all
run_all-kept key p [] c u h = h
run_all-kept key p (e ∷ es) c (u, us) h =
    run_all-kept key p es (step c e) us (step-kept key p e c u h)

run-inflight :
    (key : String) (p : ℕ) (c : Coalescer)
    → lookup key (run key p c).2.inflight ≡ some (run key p c).0
unfolding run
run-inflight key p c = ground (arith, str_eq_self key, lookup-insert key key p c.inflight)

found :
    (key : String) (p q : ℕ) (c : Coalescer)
    → lookup key c.inflight ≡ some p
    → ((run key q c).0 ≡ p) × ((run key q c).1 ≡ false) × ((run key q c).2.hits ≡ c.hits + 1)
unfolding run
found key p q c h = ground (arith, h)

-- Until the promise of a key settles every later call for the key gets that promise, starts nothing
-- and counts as a hit, whatever calls for this and other keys come between and whatever other promises
-- settle.
pub run-shares :
    (key : String) (p q : ℕ) (es : List Event) (c : Coalescer)
    → All (Unsettled key) es
    → let (promise, _, c₁) = run key p c in
      let c₂ = run_all c₁ es in
      ((run key q c₂).0 ≡ promise)
      × ((run key q c₂).1 ≡ false)
      × ((run key q c₂).2.hits ≡ c₂.hits + 1)
run-shares key p q es c u =
    found key (run key p c).0 q (run_all (run key p c).2 es)
      (run_all-kept key (run key p c).0 es (run key p c).2 u (run-inflight key p c))
