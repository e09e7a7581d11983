-- ===== src/RateLimit/Policies.antt =====
-- apps/api/src/auth/services/rate-limit.service.ts, with the policies of
-- apps/api/src/auth/decorators/throttle-policies.ts.
use Prim.Native.Nat.{min}
use Prim.Native.String
use soroban_dev_console.Shared.{
  ℕ, ◌+◌, ◌*◌, ◌<◌, String, ◌≡◌, ◌⊎◌, Bool, false, List, [], ◌∷◌, map, arith, Dict, str_eq, All, ap,
  inl, inr,
}
use soroban_dev_console.RateLimit.FixedWindow.{
  Bucket, Request, consume, admitted, made, Within, Expired, admitted-window,
}

pub data PolicyName : Type 0 where
  appeals support verification budget_actions owner_key_ops pii_export : PolicyName
  webhook_ops workspace_create read_queries : PolicyName

abbrev pub limit_of : PolicyName → ℕ
limit_of appeals = 5
limit_of support = 10
limit_of verification = 20
limit_of budget_actions = 3
limit_of owner_key_ops = 5
limit_of pii_export = 2
limit_of webhook_ops = 10
limit_of workspace_create = 10
limit_of read_queries = 100

abbrev pub window_seconds_of : PolicyName → ℕ
window_seconds_of appeals = 300
window_seconds_of support = 300
window_seconds_of verification = 60
window_seconds_of budget_actions = 300
window_seconds_of owner_key_ops = 60
window_seconds_of pii_export = 600
window_seconds_of webhook_ops = 60
window_seconds_of workspace_create = 600
window_seconds_of read_queries = 60

abbrev pub name_of : PolicyName → String
name_of appeals = "APPEALS"
name_of support = "SUPPORT"
name_of verification = "VERIFICATION"
name_of budget_actions = "BUDGET_ACTIONS"
name_of owner_key_ops = "OWNER_KEY_OPS"
name_of pii_export = "PII_EXPORT"
name_of webhook_ops = "WEBHOOK_OPS"
name_of workspace_create = "WORKSPACE_CREATE"
name_of read_queries = "READ_QUERIES"

abbrev pub key_of : PolicyName → String → String
key_of policy identifier =
    String.◌++◌ "ratelimit:" (String.◌++◌ (name_of policy) (String.◌++◌ ":" identifier))

-- A call of `consume`, at a time.
pub record Call : Type 0 where
  pub now : ℕ
  pub identifier : String
  pub policy : PolicyName

unfoldable pub request_of : Call → Request
request_of c = record {
  now = c.now;
  key = key_of c.policy c.identifier;
  limit = limit_of c.policy;
  window_ms = window_seconds_of c.policy * 1000;
}

-- `consume`; false stands for the exception with status 429.
unfoldable pub consume_policy : Call → Dict Bucket → Bool × Dict Bucket
consume_policy c buckets = consume (request_of c) buckets

-- The call is for another bucket, or for this policy and before this time.
abbrev pub SameWindow : Call → Call → Type 0
SameWindow first c =
    (str_eq (key_of c.policy c.identifier) (key_of first.policy first.identifier) ≡ false)
    ⊎ ((c.policy ≡ first.policy) × (c.now < first.now + window_seconds_of first.policy * 1000))

limit-positive : (p : PolicyName) → 0 < limit_of p
limit-positive appeals = omega arith
limit-positive p = omega arith

Within-All :
    (first : Call) (cs : List Call)
    → All (SameWindow first) cs
    → All
        (Within
          (request_of first).key
          (request_of first).limit
          ((request_of first).now + (request_of first).window_ms))
        (map request_of cs)
unfolding request_of
Within-All first [] h = tt
Within-All first (c ∷ cs) (inl other, h) = (inl other, Within-All first cs h)
Within-All first (c ∷ cs) (inr (p, t), h) = (inr (ap limit_of p, t), Within-All first cs h)

-- From a call that finds no open window for its policy and identifier on, as long as the calls of
-- that policy and identifier fall into its window, exactly the first `limit` of them are let
-- through, whatever calls for other buckets come between.
pub consume_policy-window :
    (first : Call) (cs : List Call) (buckets : Dict Bucket)
    → Expired (key_of first.policy first.identifier) first.now buckets
    → All (SameWindow first) cs
    → let key = key_of first.policy first.identifier in
      admitted key buckets (map request_of (first ∷ cs))
      ≡ min (made key (map request_of (first ∷ cs))) (limit_of first.policy)
unfolding request_of
consume_policy-window first cs buckets old h =
    admitted-window (request_of first) (map request_of cs) buckets (limit-positive first.policy) old
      (Within-All first cs h)
