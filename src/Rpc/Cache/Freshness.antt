-- ===== src/Rpc/Cache/Freshness.antt =====
-- apps/api/src/modules/rpc/rpc-cache.service.ts: how long a cached answer is given out.
use mathlib.Core.Path.{subst}
use soroban_dev_console.Shared.{
  ℕ, ◌+◌, ◌≤◌, ◌≡◌, sym, String, not, Option, none, some, List, [], ◌∷◌, leb, arith, inl, inr,
  if◌then◌else◌, length, length-select-not, str_eq, eq_iff, lookup, lookup-insert, lookup-delete,
  lookup-drop_keys, UniqueKeys, insert-UniqueKeys, delete-UniqueKeys, select-UniqueKeys,
  lookup-select, Option-cases,
}
use soroban_dev_console.Rpc.Cache.{
  RpcCache, get, set, ttl_of, is_kept, evict_expired, set_ttl, invalidate, flush_all,
  is_invalidated,
}

-- The calls that read and write the cache, and histories of them.
pub data Call {ℓ} (V : Type ℓ) : Type ℓ where
  gets : String → Call V
  sets : String → String → V → Call V
  evicts flushes : Call V
  invalidates : Option String → Option String → Call V
  sets_ttl : String → ℕ → Call V

module _ {ℓ} {V : Type ℓ} where
  pub step : RpcCache V → ℕ × Call V → RpcCache V
  step c (now, gets key) = (get now key c).1
  step c (now, sets key method value) = set now key method value c
  step c (now, evicts) = evict_expired now c
  step c (now, flushes) = flush_all c
  step c (now, invalidates method network) = (invalidate method network c).1
  step c (now, sets_ttl method ttl) = set_ttl method ttl c

  pub run : RpcCache V → List (ℕ × Call V) → RpcCache V
  run c [] = c
  run c (call ∷ calls) = run (step c call) calls

  -- Until its lifetime has passed a value that was set is what is read for its key, and after that
  -- nothing is; what is read for another key is as before.
  pub get-set :
      (now later : ℕ) (key j method : String) (value : V) (c : RpcCache V)
      → (get later j (set now key method value c)).0 ≡ (
          if str_eq key j
          then (if leb later (now + ttl_of method c) then some value else none)
          else (get later j c).0)
  unfolding get set
  get-set now later key j method value c = ground (
    arith,
    lookup-insert key j (record { value = value; expires_at = now + ttl_of method c }) c.cache,
  )

  -- Reading a key changes nothing that is read at the same time or later.
  pub get-get :
      (now later : ℕ) (key j : String) (c : RpcCache V)
      → now ≤ later
      → (get later j (get now key c).1).0 ≡ (get later j c).0
  unfolding get
  get-get now later key j c h = ground (arith, eq_iff key j, lookup-delete key j c.cache)

  -- The invalidation of a method, of a network, of both or of neither removes exactly the entries
  -- whose key names them, and returns how many there were.
  pub invalidate-exact :
      (now : ℕ) (method network : Option String) (j : String) (c : RpcCache V)
      → let (count, c') = invalidate method network c in
        (count + length c'.cache ≡ length c.cache)
        × ((get now j c').0 ≡ (if is_invalidated method network j then none else (get now j c).0))
  unfolding get invalidate
  invalidate-exact now method network j c = (
    length-select-not (λ e. is_invalidated method network e.0) c.cache,
    ground (arith, lookup-drop_keys (is_invalidated method network) j c.cache),
  )

  step-UniqueKeys :
      (c : RpcCache V) (call : ℕ × Call V) → UniqueKeys c.cache → UniqueKeys (step c call).cache
  unfolding step get set evict_expired flush_all invalidate set_ttl
  step-UniqueKeys c (now, gets key) u = ground (arith, u, delete-UniqueKeys key c.cache u)
  step-UniqueKeys c (now, sets key method value) u = insert-UniqueKeys key _ c.cache u
  step-UniqueKeys c (now, evicts) u = select-UniqueKeys (is_kept now) c.cache u
  step-UniqueKeys c (now, flushes) u = tt
  step-UniqueKeys c (now, invalidates method network) u =
      select-UniqueKeys (λ e. not (is_invalidated method network e.0)) c.cache u
  step-UniqueKeys c (now, sets_ttl method ttl) u = ground (arith, u)

  run-UniqueKeys :
      (c : RpcCache V) (calls : List (ℕ × Call V))
      → UniqueKeys c.cache
      → UniqueKeys (run c calls).cache
  unfolding run
  run-UniqueKeys c [] u = u
  run-UniqueKeys c (call ∷ calls) u = run-UniqueKeys (step c call) calls (step-UniqueKeys c call u)

  get-evict_unique :
      (now later : ℕ) (j : String) (c : RpcCache V)
      → UniqueKeys c.cache
      → now ≤ later
      → (get later j (evict_expired now c)).0 ≡ (get later j c).0
  unfolding get evict_expired
  get-evict_unique now later j c u h = elim (Option-cases (lookup j c.cache)) [
    | inl e ↦ ground (arith, e, lookup-select (is_kept now) j c.cache u)
    | inr (v, e) ↦ ground (arith, e, lookup-select (is_kept now) j c.cache u)
  ]

  -- After any history of a service that starts with an empty cache, the eviction of the expired
  -- entries changes nothing that is read at the same time or later.
  pub get-evict_expired :
      (now later : ℕ) (j : String) (c : RpcCache V) (calls : List (ℕ × Call V))
      → c.cache ≡ []
      → now ≤ later
      → (get later j (evict_expired now (run c calls))).0 ≡ (get later j (run c calls)).0
  get-evict_expired now later j c calls e h =
      let unique : UniqueKeys c.cache = subst UniqueKeys (sym e) tt in
      get-evict_unique now later j (run c calls) (run-UniqueKeys c calls unique) h
