-- ===== src/Rpc/Cache/Sharing.antt =====
-- apps/api/src/modules/rpc/rpc-cache.service.ts, `deduplicate`: which calls share a promise.
use soroban_dev_console.Shared.{
  ℕ, ◌+◌, ◌<◌, ◌≤◌, ◌≡◌, String, true, false, some, arith, if◌then◌else◌, str_eq, str_eq_self,
  lookup, insert, lookup-insert, lookup-delete,
}
use soroban_dev_console.Rpc.Cache.{RpcCache, settled, deduplicate}

module _ {ℓ} {V : Type ℓ} where
  -- A call that comes within the window of a call for the same key that was started and has not
  -- settled gets its promise, starts nothing and is counted; for another key the table is as it was.
  pub deduplicate-shares :
      (now later : ℕ) (key j : String) (p q : ℕ) (c : RpcCache V)
      → (deduplicate now key p c).1 ≡ true
      → later < now + c.dedup_window_ms
      → let (_, _, c₁) = deduplicate now key p c in
        let (promise, started, c₂) = deduplicate later key q c₁ in
        (promise ≡ p)
        × (started ≡ false)
        × (c₂.total_deduped ≡ c.total_deduped + 1)
        × (lookup j c₂.inflight ≡ (
            if str_eq key j
            then some (record { promise = p; created_at = now })
            else lookup j c.inflight))
  unfolding deduplicate
  deduplicate-shares now later key j p q c s w = ground (
    arith,
    str_eq_self key,
    lookup-insert key key (record { promise = p; created_at = now }) c.inflight,
    lookup-insert key j (record { promise = p; created_at = now }) c.inflight,
  )

  -- When a call outlives the window and another one is started for its key, the end of the first
  -- takes the second out of the table: the next call starts a third one, however soon it comes and
  -- although the second has not settled.
  pub deduplicate-lost :
      (first second third : ℕ) (key : String) (p q r : ℕ) (c : RpcCache V)
      → (deduplicate first key p c).1 ≡ true
      → first + c.dedup_window_ms ≤ second
      → let c₁ = (deduplicate first key p c).2 in
        let (promise, started, c₂) = deduplicate second key q c₁ in
        (promise ≡ q)
        × (started ≡ true)
        × ((deduplicate third key r (settled key c₂)).0 ≡ r)
        × ((deduplicate third key r (settled key c₂)).1 ≡ true)
  unfolding deduplicate settled
  deduplicate-lost first second third key p q r c s w = ground (
    arith,
    str_eq_self key,
    lookup-insert key key (record { promise = p; created_at = first }) c.inflight,
    lookup-delete key key (
        insert key (record { promise = q; created_at = second })
          (insert key (record { promise = p; created_at = first }) c.inflight)),
  )
