-- ===== src/Coalescer.antt =====
-- apps/api/src/lib/request-coalescer.ts: concurrent identical calls share one upstream request. A
-- promise is a number, given by the caller; the key is an argument, since it holds a hash. The hit
-- rate, a fraction of the two counts, is left out.
pub mod Sharing
mod Tests
use soroban_dev_console.Shared.{
  ℕ, ◌+◌, String, Bool, true, false, Option, none, some, List, [], ◌∷◌, length, Dict, lookup,
  insert, delete, has,
}

abbrev pub coalescible_rpc_methods : List String
coalescible_rpc_methods =
    "getLatestLedger" ∷ "getNetwork" ∷ "getVersionInfo" ∷ "getFeeStats" ∷ "getHealth" ∷ "getAccount"
    ∷ "getLedgerEntries" ∷ "getContractData" ∷ "getContractWasm" ∷ "getEvents" ∷ "getTransaction"
    ∷ "getTransactions" ∷ "simulateTransaction" ∷ []

abbrev pub is_coalescible : String → Bool
is_coalescible method = has method coalescible_rpc_methods

pub record Coalescer : Type 0 where
  pub inflight : Dict ℕ
  pub hits : ℕ
  pub misses : ℕ

-- `run`: the promise that is returned, whether it was started, and the new state.
unfoldable pub run : String → ℕ → Coalescer → ℕ × Bool × Coalescer
run key fresh c = elim (lookup key c.inflight) [
  | none ↦ (fresh, true, record c { inflight = insert key fresh c.inflight; misses = c.misses + 1 })
  | some existing ↦ (existing, false, record c { hits = c.hits + 1 })
]

-- The `finally` of the promise of the key.
unfoldable pub settled : String → Coalescer → Coalescer
settled key c = record c { inflight = delete key c.inflight }

unfoldable pub in_flight : Coalescer → ℕ
in_flight c = length c.inflight

-- What happens to the coalescer, and histories of it.
pub data Event : Type 0 where
  runs : String → ℕ → Event
  settles : String → Event

pub step : Coalescer → Event → Coalescer
step c (runs key fresh) = (run key fresh c).2
step c (settles key) = settled key c

pub run_all : Coalescer → List Event → Coalescer
run_all c [] = c
run_all c (e ∷ es) = run_all (step c e) es
