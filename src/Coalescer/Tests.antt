-- ===== src/Coalescer/Tests.antt =====
-- apps/api/src/lib/request-coalescer.ts: the results at concrete calls.
use soroban_dev_console.Shared.{◌+◌, ◌≡◌, ◌≢◌, false, List, [], ◌∷◌, arith, eq_iff}
use soroban_dev_console.Coalescer.{Coalescer, run, Event, runs, settles, run_all}
use soroban_dev_console.Coalescer.Sharing.{run-shares}

abbrev empty : Coalescer
empty = record { inflight = []; hits = 0; misses = 0 }

abbrev events : List Event
events = runs "b" 2 ∷ settles "b" ∷ runs "a" 3 ∷ []

others_differ : settles "b" ≢ settles "a"
others_differ e = ground (arith, eq_iff "b" "a")

run-shares_example :
    let (promise, _, c₁) = run "a" 1 empty in
    let c₂ = run_all c₁ events in
    ((run "a" 4 c₂).0 ≡ promise)
    × ((run "a" 4 c₂).1 ≡ false)
    × ((run "a" 4 c₂).2.hits ≡ c₂.hits + 1)
run-shares_example = run-shares "a" 1 4 events empty ((λ e. cc), (others_differ, ((λ e. cc), tt)))
