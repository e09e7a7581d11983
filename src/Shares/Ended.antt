-- ===== src/Shares/Ended.antt =====
-- apps/api/src/modules/shares/shares.service.ts: revoked and expired shares stay closed.
use mathlib.Core.Path.{subst}
use soroban_dev_console.Shared.{
  ℕ, ◌≤◌, String, Bool, true, false, not, Option, none, some, List, [], ◌∷◌, select, find, any,
  str_eq, if◌then◌else◌, arith, ◌≡◌, ◌⊎◌, refl, Option-cases, Bool-cases, inl, inr, eq_iff, All,
  All-append, All-select,
}
use soroban_dev_console.Shares.{
  Share, Links, Outcome, not_found, forbidden, gone, resolve, cleanup, update_token, viewed,
  is_ended, has_token, is_some, is_expired,
}
use soroban_dev_console.Shares.Forks.{fork}
use soroban_dev_console.Shares.Histories.{Host, Request, creates, step, run}
use soroban_dev_console.Shares.Changes.{Change, kept, added, seen, withdrawn, swept, step-Change}

-- The request is refused.
abbrev pub IsRefused {ℓ} : {A : Type ℓ} → Outcome A → Type ℓ
IsRefused answer = (answer ≡ not_found) ⊎ ((answer ≡ forbidden) ⊎ (answer ≡ gone))

-- The request makes no share with this token.
abbrev pub Spares {ℓ} : {S : Type ℓ} → String → Request S → Type 0
Spares token (creates id other owner_key dto) = str_eq other token ≡ false
Spares token request = Unit

module _ {ℓ} {S : Type ℓ} (t : ℕ) (token : String) where
  -- A share with this token was revoked or expired at the time `t`.
  abbrev pub Closed : Share S → Type 0
  Closed share = has_token token share ≡ true → is_ended t share ≡ true

  Closed-update_token :
      (other : String) (f : Share S → Share S) (shares : List (Share S))
      → ((s : Share S) → Closed s → Closed (f s))
      → All Closed shares
      → All Closed (update_token other f shares)
  unfolding update_token
  Closed-update_token other f [] k h = tt
  Closed-update_token other f (s ∷ shares) k (c, h) = elim (Bool-cases (has_token other s)) [
    | inl here ↦ rw here (k s c, Closed-update_token other f shares k h)
    | inr there ↦ rw there (c, Closed-update_token other f shares k h)
  ]

  Change-Closed :
      (now : ℕ) (request : Request S) (before after : Links S)
      → Spares token request
      → Change now request before after
      → All Closed before.shares
      → All Closed after.shares
  Change-Closed now request before after n (kept e logs) h = rw e h
  Change-Closed now request before after n
        (added id other owner_key dto share which same zero free fresh e logs) h =
      let n' : str_eq other token ≡ false = subst (Spares token) which n in
      rw e (
        All-append Closed before.shares (share ∷ []) h
          ((λ k. absurd (ground (arith, k, same, n'))), tt))
  Change-Closed now request before after n (seen other share log found same live e logs) h =
      rw e (Closed-update_token other viewed before.shares (λ s c. c) h)
  Change-Closed now request before after n (withdrawn other e logs) h = rw e (
      Closed-update_token other (λ s. record s { revoked_at = some now }) before.shares
        (λ s c k. refl) h)
  Change-Closed now request before after n (swept e logs) h =
      rw e (All-select Closed (λ s. not (is_ended now s)) before.shares h)

  run-Closed :
      (host : Host S) (requests : List (ℕ × Request S)) (l : Links S)
      → All (λ r. Spares token r.1) requests
      → All Closed l.shares
      → All Closed (run host requests l).shares
  unfolding run
  run-Closed host [] l n h = h
  run-Closed host ((now, request) ∷ later) l (n, rest) h =
      run-Closed host later (step host now request l) rest
        (Change-Closed now request l _ n (step-Change host now request l) h)

  find-Closed :
      (shares : List (Share S)) (share : Share S)
      → All Closed shares
      → find (has_token token) shares ≡ some share
      → is_ended t share ≡ true
  find-Closed [] share h e = absurd (ground (arith, e))
  find-Closed (s ∷ shares) share (c, h) e = elim (Bool-cases (has_token token s)) [
    | inl here ↦
        let same : s ≡ share = ground (arith, e, here) in
        subst (λ x. is_ended t x ≡ true) same (c here)
    | inr there ↦ find-Closed shares share h (ground (arith, e, there))
  ]

  ended-refuses :
      (now : ℕ) (share : Share S)
      → t ≤ now
      → is_ended t share ≡ true
      → (is_some share.revoked_at ≡ false)
      → is_expired now share.expires_at ≡ true
  ended-refuses now share le e live = elim (Option-cases share.expires_at) [
    | inl never ↦ absurd (ground (arith, e, live, never))
    | inr (x, some_time) ↦ ground (arith, e, live, some_time, le)
  ]

  resolve-IsRefused :
      (now : ℕ) (ip user_agent : Option String) (l : Links S)
      → t ≤ now
      → All Closed l.shares
      → IsRefused (resolve now token ip user_agent l).0
  unfolding resolve
  resolve-IsRefused now ip user_agent l le h =
      elim (Option-cases (find (has_token token) l.shares)) [
        | inl missing ↦ inl (ground (arith, missing))
        | inr (share, found) ↦ elim (Bool-cases (is_some share.revoked_at)) [
          | inl withdrawn_before ↦ inr (inl (ground (arith, found, withdrawn_before)))
          | inr live ↦
              let late = ended-refuses now share le (find-Closed l.shares share h found) live in
              inr (inr (ground (arith, found, live, late)))
        ]
      ]

  fork-IsRefused :
      (host : Host S) (now : ℕ) (id : String) (fresh : ℕ → String) (owner_key : String)
      (name : Option String) (l : Links S)
      → t ≤ now
      → All Closed l.shares
      → IsRefused (fork host.is_null host.show now id fresh token owner_key name l).0
  unfolding fork
  fork-IsRefused host now id fresh owner_key name l le h =
      elim (Option-cases (find (has_token token) l.shares)) [
        | inl missing ↦ inl (ground (arith, missing))
        | inr (share, found) ↦ elim (Bool-cases (is_some share.revoked_at)) [
          | inl withdrawn_before ↦ inr (inl (ground (arith, found, withdrawn_before)))
          | inr live ↦
              let late = ended-refuses now share le (find-Closed l.shares share h found) live in
              inr (inr (ground (arith, found, live, late)))
        ]
      ]

  -- A share that was revoked, or had expired, at a time is neither resolved nor forked at that time
  -- or later, whatever requests came between, as long as its token is not given to a new share.
  pub run-IsRefused :
      (host : Host S) (requests : List (ℕ × Request S)) (l : Links S) (now : ℕ)
      (ip user_agent : Option String) (id : String) (fresh : ℕ → String) (owner_key : String)
      (name : Option String)
      → All Closed l.shares
      → All (λ r. Spares token r.1) requests
      → t ≤ now
      → let later = run host requests l in
        IsRefused (resolve now token ip user_agent later).0
        × IsRefused (fork host.is_null host.show now id fresh token owner_key name later).0
  run-IsRefused host requests l now ip user_agent id fresh owner_key name h n le =
      let closed = run-Closed host requests l n h in
      (
        resolve-IsRefused now ip user_agent (run host requests l) le closed,
        fork-IsRefused host now id fresh owner_key name (run host requests l) le closed,
      )

module _ {ℓ} {S : Type ℓ} where
  abbrev pub UniqueTokens : List (Share S) → Type 0
  UniqueTokens [] = Unit
  UniqueTokens (s ∷ shares) = (any (has_token s.token) shares ≡ false) × UniqueTokens shares

  find-none :
      (token : String) (p : Share S → Bool) (shares : List (Share S))
      → any (has_token token) shares ≡ false
      → find (has_token token) (select p shares) ≡ none
  find-none token p [] n = refl
  find-none token p (s ∷ shares) n = ground (arith, find-none token p shares)

  find-select :
      (token : String) (p : Share S → Bool) (shares : List (Share S))
      → UniqueTokens shares
      → find (has_token token) (select p shares) ≡ elim (find (has_token token) shares) [
        | none ↦ none
        | some s ↦ if p s then some s else none
      ]
  find-select token p [] u = refl
  find-select token p (s ∷ shares) (n, u) =
      ground (arith, eq_iff s.token token, find-none token p shares, find-select token p shares u)

  -- After a cleanup, a request to resolve a share is answered as without it, but a share that was
  -- revoked or had expired is not found. Tokens are unique.
  pub resolve-cleanup :
      (now : ℕ) (token : String) (ip user_agent : Option String) (l : Links S)
      → UniqueTokens l.shares
      → (resolve now token ip user_agent (cleanup now l).1).0
        ≡ elim (resolve now token ip user_agent l).0 [
          | forbidden ↦ not_found
          | gone ↦ not_found
          | answer ↦ answer
        ]
  unfolding resolve cleanup
  resolve-cleanup now token ip user_agent l u =
      let after = find-select token (λ s. not (is_ended now s)) l.shares u in
      elim (Option-cases (find (has_token token) l.shares)) [
        | inl missing ↦ ground (arith, missing, after)
        | inr (share, found) ↦ elim (Bool-cases (is_some share.revoked_at)) [
          | inl withdrawn_before ↦ ground (arith, found, withdrawn_before, after)
          | inr live ↦ elim (Bool-cases (is_expired now share.expires_at)) [
            | inl late ↦ ground (arith, found, live, late, after)
            | inr timely ↦ ground (arith, found, live, timely, after)
          ]
        ]
      ]
