-- ===== src/RateLimit/RpcActivate.antt =====
-- apps/api/src/modules/rpc/rpc-rate-limit.guard.ts, `canActivate`: the choice between the limit of an
-- owner and that of an address. The owner's header is `none` where it is no text.
use soroban_dev_console.Shared.{
  ℕ, ◌≡◌, ◌⊎◌, inr, refl, String, Option, none, some, List, Dict, str_eq, arith, if◌then◌else◌,
}
use soroban_dev_console.RateLimit.FixedWindow.{Bucket}
use soroban_dev_console.RateLimit.RpcGuard
use soroban_dev_console.RateLimit.RpcGuard.{check_ip_rate_limit}
use soroban_dev_console.RateLimit.OwnerWindow
use soroban_dev_console.RateLimit.OwnerWindow.{OwnerRateLimitConfig, check_owner_rate_limit}

pub record Guard : Type 0 where
  pub ip_buckets : Dict Bucket
  pub owner_buckets : Dict (List ℕ)

pub data Verdict : Type 0 where
  by_address : RpcGuard.Answer → Verdict
  by_owner : OwnerWindow.Answer → Verdict

module _ (hash : String → String) (config : OwnerRateLimitConfig) where
  unfoldable pub check_address : ℕ → String → Guard → Verdict × Guard
  check_address now ip g =
      let (answer, buckets) = check_ip_rate_limit now ip g.ip_buckets in
      (by_address answer, record g { ip_buckets = buckets })

  unfoldable pub check_owner : ℕ → String → Guard → Verdict × Guard
  check_owner now owner_key g =
      let (answer, buckets) = check_owner_rate_limit hash config now owner_key g.owner_buckets in
      (by_owner answer, record g { owner_buckets = buckets })

  unfoldable pub rpc_can_activate : ℕ → Option String → String → Guard → Verdict × Guard
  rpc_can_activate now owner_key ip g = elim owner_key [
    | none ↦ check_address now ip g
    | some key ↦ if str_eq key "" then check_address now ip g else check_owner now key g
  ]

  -- A request changes the buckets of addresses or those of owners, never both.
  pub rpc_can_activate-separate :
      (now : ℕ) (owner_key : Option String) (ip : String) (g : Guard)
      → let g' = (rpc_can_activate now owner_key ip g).1 in
        (g'.ip_buckets ≡ g.ip_buckets) ⊎ (g'.owner_buckets ≡ g.owner_buckets)
  unfolding rpc_can_activate check_address check_owner
  rpc_can_activate-separate now none ip g = inr refl
  rpc_can_activate-separate now (some key) ip g = ground arith
