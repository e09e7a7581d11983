-- ===== src/Rpc/Cache.antt =====
-- apps/api/src/modules/rpc/rpc-cache.service.ts: the cache of answers and the sharing of calls that
-- are under way. A promise is a number. The environment's settings come parsed, as arguments.
pub mod Freshness
pub mod Sharing
use Prim.Native.String.{String}
use Prim.Native.String
use Prim.Native.Char.{Char, code}
use soroban_dev_console.Shared.{
  ℕ, suc, ◌+◌, ◌<◌, Bool, true, false, ◌&&◌, ◌||◌, not, Option, none, some, List, [], ◌∷◌, ltb, leb,
  ◌==◌, if◌then◌else◌, length, select, str_eq, Dict, lookup, insert, delete, has,
}

abbrev pub cacheable_methods : List String
cacheable_methods =
    "getLatestLedger" ∷ "getLedgerEntries" ∷ "getNetwork" ∷ "getFeeStats" ∷ "getVersionInfo"
    ∷ "getContractData" ∷ "getContractWasm" ∷ "getAccount" ∷ []

abbrev pub default_method_ttl_ms : Dict ℕ
default_method_ttl_ms =
    ("getLatestLedger", 5000)
    ∷ ("getFeeStats", 10000)
    ∷ ("getNetwork", 60000)
    ∷ ("getVersionInfo", 60000)
    ∷ ("getLedgerEntries", 15000)
    ∷ ("getContractData", 15000)
    ∷ ("getContractWasm", 30000)
    ∷ ("getAccount", 10000)
    ∷ []

abbrev pub default_ttl_ms : ℕ
default_ttl_ms = 10000

abbrev pub default_dedup_window_ms : ℕ
default_dedup_window_ms = 5000

pub record CacheEntry {ℓ} (V : Type ℓ) : Type ℓ where
  pub value : V
  pub expires_at : ℕ

pub record InflightEntry : Type 0 where
  pub promise : ℕ
  pub created_at : ℕ

pub record RpcCache {ℓ} (V : Type ℓ) : Type ℓ where
  pub cache : Dict (CacheEntry V)
  pub inflight : Dict InflightEntry
  pub total_deduped : ℕ
  pub method_ttl : Dict ℕ
  pub dedup_window_ms : ℕ

-- `loadMethodTtls`; `env` gives the parsed `RPC_TTL_` setting of a method, none if it is no number.
unfoldable pub load_method_ttls : (String → Option ℕ) → List String → Dict ℕ → Dict ℕ
load_method_ttls env [] ttls = ttls
load_method_ttls env (method ∷ methods) ttls = load_method_ttls env methods (elim (env method) [
  | none ↦ ttls
  | some parsed ↦ if ltb 0 parsed then insert method parsed ttls else ttls
])

-- `loadDedupWindow`
unfoldable pub load_dedup_window : Option ℕ → ℕ
load_dedup_window none = default_dedup_window_ms
load_dedup_window (some parsed) = if ltb 0 parsed then parsed else default_dedup_window_ms

abbrev pub is_cacheable : String → Bool
is_cacheable method = has method cacheable_methods

-- The text before the first colon, and the text behind it.
unfoldable pub before_colon : String → String
before_colon String.[] = ""
before_colon (String.◌∷◌ c s) = if code c == b':' then "" else String.◌∷◌ c (before_colon s)

unfoldable pub after_colon : String → String
after_colon String.[] = ""
after_colon (String.◌∷◌ c s) = if code c == b':' then s else after_colon s

-- `parts[0]` and `parts[1]` of `key.split(":")`, the empty text where there is none.
abbrev pub network_part : String → String
network_part key = before_colon key

abbrev pub method_part : String → String
method_part key = before_colon (after_colon key)

-- `!method || keyMethod === method`
abbrev pub matches : Option String → String → Bool
matches none part = true
matches (some wanted) part = str_eq wanted "" || str_eq part wanted

abbrev pub is_invalidated : Option String → Option String → String → Bool
is_invalidated method network key =
    matches method (method_part key) && matches network (network_part key)

module _ {ℓ} {V : Type ℓ} where
  unfoldable pub get : ℕ → String → RpcCache V → Option V × RpcCache V
  get now key c = elim (lookup key c.cache) [
    | none ↦ (none, c)
    | some entry ↦
        if ltb entry.expires_at now
        then (none, record c { cache = delete key c.cache })
        else (some entry.value, c)
  ]

  -- `this.methodTtl[method] ?? DEFAULT_TTL_MS`
  unfoldable pub ttl_of : String → RpcCache V → ℕ
  ttl_of method c = elim (lookup method c.method_ttl) [ none ↦ default_ttl_ms | some ttl ↦ ttl ]

  unfoldable pub set : ℕ → String → String → V → RpcCache V → RpcCache V
  set now key method value c =
      let entry : CacheEntry V = record { value = value; expires_at = now + ttl_of method c } in
      record c { cache = insert key entry c.cache }

  -- `deduplicate`: the promise that is returned, whether it was started, and the new state. `fresh`
  -- is the promise of a call that is started.
  unfoldable pub deduplicate : ℕ → String → ℕ → RpcCache V → ℕ × Bool × RpcCache V
  deduplicate now key fresh c =
      let entry : InflightEntry = record { promise = fresh; created_at = now } in
      let started : ℕ × Bool × RpcCache V =
        (fresh, true, record c { inflight = insert key entry c.inflight }) in
      elim (lookup key c.inflight) [
        | none ↦ started
        | some existing ↦
            if ltb now (existing.created_at + c.dedup_window_ms)
            then (existing.promise, false, record c { total_deduped = c.total_deduped + 1 })
            else started
      ]

  -- The `finally` of a promise that was started for the key.
  unfoldable pub settled : String → RpcCache V → RpcCache V
  settled key c = record c { inflight = delete key c.inflight }

  abbrev pub is_kept : ℕ → String × CacheEntry V → Bool
  is_kept now e = leb now e.1.expires_at

  unfoldable pub evict_expired : ℕ → RpcCache V → RpcCache V
  evict_expired now c = record c { cache = select (is_kept now) c.cache }

  unfoldable pub set_ttl : String → ℕ → RpcCache V → RpcCache V
  set_ttl method ttl_ms c =
      if ltb 0 ttl_ms then record c { method_ttl = insert method ttl_ms c.method_ttl } else c

  unfoldable pub invalidate : Option String → Option String → RpcCache V → ℕ × RpcCache V
  invalidate method network c = (
    length (select (λ e. is_invalidated method network e.0) c.cache),
    record c { cache = select (λ e. not (is_invalidated method network e.0)) c.cache },
  )

  unfoldable pub flush_all : RpcCache V → RpcCache V
  flush_all c = record c { cache = [] }
