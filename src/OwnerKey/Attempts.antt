-- ===== src/OwnerKey/Attempts.antt =====
-- apps/api/src/auth/owner-key.guard.ts: how many keys an address can try.
use mathlib.Core.Path.{subst}
use soroban_dev_console.Shared.{
  ℕ, ◌+◌, ◌≤◌, ◌≡◌, ◌≢◌, ◌⊎◌, ◌-◌, ap, sym, ◌∙◌, str_eq_self, refl, String, Bool, true, false, some,
  List, [], ◌∷◌, leb, str_eq, eq_iff, Dict, lookup, lookup-insert, lookup-delete, if◌then◌else◌,
  arith, All, Bool-cases, Option-cases, inl, inr,
}
use soroban_dev_console.OwnerKey.{
  Attempt, Header, absent, several, one, Answer, allowed, too_many, missing, weak_key, is_over,
  is_rate_limited, record_attempt, check_key, can_activate, max_attempts, rate_limit_window,
}

pub record Request : Type 0 where
  pub now : ℕ
  pub ip : String
  pub header : Header

-- The key was looked at and refused.
abbrev pub is_failure : Answer → Bool
is_failure (allowed key) = false
is_failure too_many = false
is_failure missing = true
is_failure weak_key = true

limited_other :
    (now : ℕ) (other ip : String) (store : Dict Attempt)
    → str_eq other ip ≡ false
    → lookup ip (is_rate_limited now other store).1 ≡ lookup ip store
unfolding is_rate_limited
limited_other now other ip store n = elim (Option-cases (lookup other store)) [
  | inl e ↦ ground (arith, e)
  | inr (a, e) ↦ ground (arith, e, n, lookup-delete other ip store)
]

recorded_other :
    (now : ℕ) (other ip : String) (store : Dict Attempt)
    → str_eq other ip ≡ false
    → lookup ip (record_attempt now other store) ≡ lookup ip store
unfolding record_attempt
recorded_other now other ip store n = elim (Option-cases (lookup other store)) [
  | inl e ↦
      ground (arith, e, n, lookup-insert other ip (record { count = 1; window_start = now }) store)
  | inr (a, e) ↦ ground (
    arith,
    e,
    n,
    lookup-insert other ip (record { count = 1; window_start = now }) store,
    lookup-insert other ip (record a { count = a.count + 1 }) store,
  )
]

limited_own :
    (now : ℕ) (ip : String) (store : Dict Attempt) (a : Attempt)
    → lookup ip store ≡ some a
    → is_over now a ≡ false
    → is_rate_limited now ip store ≡ (leb max_attempts a.count, store)
unfolding is_rate_limited
limited_own now ip store a e n = ground (arith, e, n)

recorded_own :
    (now : ℕ) (ip : String) (store : Dict Attempt) (a : Attempt)
    → lookup ip store ≡ some a
    → is_over now a ≡ false
    → lookup ip (record_attempt now ip store) ≡ some (record a { count = a.count + 1 })
unfolding record_attempt
recorded_own now ip store a e n =
    ground
      (arith, e, n, str_eq_self ip, lookup-insert ip ip (record a { count = a.count + 1 }) store)

Answer-cases :
    (a : Answer)
    → ((key : String) × (a ≡ allowed key)) ⊎ ((a ≡ too_many) ⊎ ((a ≡ missing) ⊎ (a ≡ weak_key)))
Answer-cases (allowed key) = inl (key, refl)
Answer-cases too_many = inr (inl refl)
Answer-cases missing = inr (inr (inl refl))
Answer-cases weak_key = inr (inr (inr refl))

module _ (trim : String → String) where
  abbrev pub answer : Dict Attempt → Request → Answer × Dict Attempt
  answer store r = can_activate trim r.now r.ip r.header store

  -- The failures of an address in a history of requests of all addresses.
  pub failures : String → Dict Attempt → List Request → ℕ
  failures ip store [] = 0
  failures ip store (r ∷ rs) =
      (if str_eq r.ip ip then (if is_failure (answer store r).0 then 1 else 0) else 0)
      + failures ip (answer store r).1 rs

  -- Another address's request leaves the attempts as they are.
  answer-other :
      (ip : String) (store : Dict Attempt) (r : Request)
      → str_eq r.ip ip ≡ false
      → lookup ip (answer store r).1 ≡ lookup ip store
  unfolding can_activate
  answer-other ip store r n =
      let kept = (is_rate_limited r.now r.ip store).1 in
      let first = limited_other r.now r.ip ip store n in
      let second = recorded_other r.now r.ip ip kept n in
      elim (Answer-cases (check_key trim r.header)) [
        | inl (key, e) ↦ ground (arith, e, first)
        | inr (inl e) ↦ ground (arith, e, first, second)
        | inr (inr (inl e)) ↦ ground (arith, e, first, second)
        | inr (inr (inr e)) ↦ ground (arith, e, first, second)
      ]

  -- The checks of the header never say that there were too many attempts.
  check_key-judges : (header : Header) → check_key trim header ≢ too_many
  unfolding check_key
  check_key-judges absent e = ground arith
  check_key-judges several e = ground arith
  check_key-judges (one key) e = ground arith

  -- A request of the address in its window: turned away when ten have failed, or judged by its
  -- header, and then counted if it fails.
  answer-own :
      (store : Dict Attempt) (r : Request) (a : Attempt)
      → lookup r.ip store ≡ some a
      → is_over r.now a ≡ false
      → ((answer store r).0
          ≡ (if leb max_attempts a.count then too_many else check_key trim r.header))
        × ((b : Attempt) × (lookup r.ip (answer store r).1 ≡ some b)
            × (b.window_start ≡ a.window_start)
            × (b.count ≡ a.count + (if is_failure (answer store r).0 then 1 else 0)))
  unfolding can_activate
  answer-own store r a e n =
      let limited = limited_own r.now r.ip store a e n in
      let counted = recorded_own r.now r.ip store a e n in
      let more : Attempt = record a { count = a.count + 1 } in
      elim (Bool-cases (leb max_attempts a.count)) [
        | inl full ↦ (
          ground (arith, limited, full),
          (a, ground (arith, limited, full, e), refl, ground (arith, limited, full)),
        )
        | inr room ↦ elim (Answer-cases (check_key trim r.header)) [
          | inl (key, k) ↦ (
            ground (arith, limited, room, k),
            (a, ground (arith, limited, room, e, k), refl, ground (arith, limited, room, k)),
          )
          | inr (inl k) ↦ absurd (check_key-judges r.header k)
          | inr (inr (inl k)) ↦ (
            ground (arith, limited, room, k),
            (
              more,
              ground (arith, limited, room, counted, k),
              refl,
              ground (arith, limited, room, k),
            ),
          )
          | inr (inr (inr k)) ↦ (
            ground (arith, limited, room, k),
            (
              more,
              ground (arith, limited, room, counted, k),
              refl,
              ground (arith, limited, room, k),
            ),
          )
        ]
      ]

  -- The attempts after a history of requests.
  abbrev pub after : Dict Attempt → List Request → Dict Attempt
  after store [] = store
  after store (r ∷ rs) = after (answer store r).1 rs

  -- After requests in its window, the count of an address has grown by its failures.
  after-counted :
      (ip : String) (store : Dict Attempt) (rs : List Request) (a : Attempt)
      → lookup ip store ≡ some a
      → All (λ r. r.now ≤ a.window_start + rate_limit_window) rs
      → (b : Attempt) × (lookup ip (after store rs) ≡ some b)
        × (b.window_start ≡ a.window_start)
        × (b.count ≡ a.count + failures ip store rs)
        × (failures ip store rs ≤ max_attempts - a.count)
  unfolding failures
  after-counted ip store [] a e h = (a, e, refl, omega arith, omega arith)
  after-counted ip store (r ∷ rs) a e (timely, h) = elim (Bool-cases (str_eq r.ip ip)) [
    | inr other ↦
        let (c, found, start, count, bound) =
          after-counted ip (answer store r).1 rs a (answer-other ip store r other ∙ e) h in
        (c, found, start, ground (arith, other, count), ground (arith, other, bound))
    | inl own ↦
        let same = (eq_iff r.ip ip).0 own in
        let e' : lookup r.ip store ≡ some a = ap (λ k. lookup k store) same ∙ e in
        let (judged, next) = answer-own store r a e' (ground (arith, timely)) in
        let (b, found, start, counted) = next in
        let found' : lookup ip (answer store r).1 ≡ some b =
          ap (λ k. lookup k (answer store r).1) (sym same) ∙ found in
        let (c, last, began, count, bound) =
          after-counted ip (answer store r).1 rs b found'
            (subst (λ t. All (λ q. q.now ≤ t + rate_limit_window) rs) (sym start) h) in
        let few : (if is_failure (answer store r).0 then 1 else 0) ≤ max_attempts - a.count =
          ground (arith, judged) in
        (
          c,
          last,
          began ∙ start,
          ground (arith, own, count, counted),
          ground (arith, own, bound, counted, few),
        )
  ]

  -- While the window of an address is open, whatever requests come from any addresses, the failures
  -- are at most as many as are left of the ten, and the next request of the address is turned away
  -- if those counted before and the failures since make ten, and is judged by its header alone if
  -- they do not.
  pub failures_bounded :
      (store : Dict Attempt) (rs : List Request) (r : Request) (a : Attempt)
      → lookup r.ip store ≡ some a
      → All (λ q. q.now ≤ a.window_start + rate_limit_window) rs
      → r.now ≤ a.window_start + rate_limit_window
      → (failures r.ip store rs ≤ max_attempts - a.count)
        × ((can_activate trim r.now r.ip r.header (after store rs)).0 ≡ (
            if leb max_attempts (a.count + failures r.ip store rs)
            then too_many
            else check_key trim r.header))
  failures_bounded store rs r a e h timely =
      let (b, found, start, count, bound) = after-counted r.ip store rs a e h in
      let (judged, rest) = answer-own (after store rs) r b found (ground (arith, start, timely)) in
      (
        bound,
        judged ∙ ap (λ n. if leb max_attempts n then too_many else check_key trim r.header) count,
      )
