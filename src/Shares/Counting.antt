-- ===== src/Shares/Counting.antt =====
-- apps/api/src/modules/shares/shares.service.ts: share ids, tokens and access logs,
-- and what the writes keep of them.
use mathlib.Core.Path.{subst}
use soroban_dev_console.Shared.{
  ℕ, ◌+◌, length, String, Bool, true, false, ◌||◌, List, [], ◌∷◌, ◌++◌, select, any, str_eq,
  if◌then◌else◌, arith, ◌≡◌, ◌∙◌, refl, Bool-cases, inl, inr, eq_iff, All,
}
use soroban_dev_console.Shares.{Share, AccessLog, Links, update_token, has_token}
use soroban_dev_console.Shares.Ended.{UniqueTokens}

abbrev pub count : String → List AccessLog → ℕ
count id logs = length (select (λ log. str_eq log.share_id id) logs)

pub count_end :
    (id : String) (logs : List AccessLog) (log : AccessLog)
    → count id (logs ++ log ∷ []) ≡ count id logs + (if str_eq log.share_id id then 1 else 0)
count_end id [] log = ground arith
count_end id (first ∷ logs) log = ground (arith, count_end id logs log)

module _ {ℓ} {S : Type ℓ} where
  abbrev pub has_share_id : String → Share S → Bool
  has_share_id id s = str_eq s.id id

  abbrev pub UniqueShareIds : List (Share S) → Type 0
  UniqueShareIds [] = Unit
  UniqueShareIds (s ∷ shares) = (any (has_share_id s.id) shares ≡ false) × UniqueShareIds shares

  abbrev pub Counts : List AccessLog → Share S → Type 0
  Counts logs s = s.view_count ≡ count s.id logs

  abbrev pub Known : List (Share S) → AccessLog → Type 0
  Known shares log = any (has_share_id log.share_id) shares ≡ true

  pub record IsCounted (l : Links S) : Type ℓ where
    pub ids : UniqueShareIds l.shares
    pub tokens : UniqueTokens l.shares
    pub counts : All (Counts l.access_logs) l.shares
    pub known : All (Known l.shares) l.access_logs

  pub count_none :
      (id : String) (shares : List (Share S)) (logs : List AccessLog)
      → any (has_share_id id) shares ≡ false
      → All (Known shares) logs
      → count id logs ≡ 0
  count_none id shares [] n k = refl
  count_none id shares (log ∷ logs) n (here, k) = elim (Bool-cases (str_eq log.share_id id)) [
    | inl same ↦
        let there : any (has_share_id id) shares ≡ true =
          subst (λ i. any (has_share_id i) shares ≡ true) ((eq_iff log.share_id id).0 same) here in
        absurd (ground (arith, there, n))
    | inr other ↦ ground (arith, other, count_none id shares logs n k)
  ]

  pub any_end :
      (p : Share S → Bool) (shares : List (Share S)) (s : Share S)
      → any p (shares ++ s ∷ []) ≡ any p shares || p s
  any_end p [] s = ground arith
  any_end p (first ∷ shares) s = ground (arith, any_end p shares s)

  pub UniqueShareIds-end :
      (shares : List (Share S)) (s : Share S)
      → UniqueShareIds shares
      → any (has_share_id s.id) shares ≡ false
      → UniqueShareIds (shares ++ s ∷ [])
  UniqueShareIds-end [] s u n = (refl, tt)
  UniqueShareIds-end (first ∷ shares) s (m, u) n = ground (
    arith,
    eq_iff first.id s.id,
    eq_iff s.id first.id,
    any_end (has_share_id first.id) shares s,
    UniqueShareIds-end shares s u,
  )

  pub UniqueTokens-end :
      (shares : List (Share S)) (s : Share S)
      → UniqueTokens shares
      → any (has_token s.token) shares ≡ false
      → UniqueTokens (shares ++ s ∷ [])
  UniqueTokens-end [] s u n = (refl, tt)
  UniqueTokens-end (first ∷ shares) s (m, u) n = ground (
    arith,
    eq_iff first.token s.token,
    eq_iff s.token first.token,
    any_end (has_token first.token) shares s,
    UniqueTokens-end shares s u,
  )

  module _ (token : String) (f : Share S → Share S) (id_kept : (s : Share S) → (f s).id ≡ s.id)
      (token_kept : (s : Share S) → (f s).token ≡ s.token) where
    pub any_id_updated :
        (id : String) (shares : List (Share S))
        → any (has_share_id id) (update_token token f shares) ≡ any (has_share_id id) shares
    unfolding update_token
    any_id_updated id [] = refl
    any_id_updated id (s ∷ shares) = ground (arith, id_kept s, any_id_updated id shares)

    any_token_updated :
        (other : String) (shares : List (Share S))
        → any (has_token other) (update_token token f shares) ≡ any (has_token other) shares
    unfolding update_token
    any_token_updated other [] = refl
    any_token_updated other (s ∷ shares) =
        ground (arith, token_kept s, any_token_updated other shares)

    pub updated-UniqueShareIds :
        (shares : List (Share S))
        → UniqueShareIds shares
        → UniqueShareIds (update_token token f shares)
    unfolding update_token
    updated-UniqueShareIds [] u = tt
    updated-UniqueShareIds (s ∷ shares) (n, u) =
        ground (arith, id_kept s, any_id_updated s.id shares, updated-UniqueShareIds shares u)

    pub updated-UniqueTokens :
        (shares : List (Share S)) → UniqueTokens shares → UniqueTokens (update_token token f shares)
    unfolding update_token
    updated-UniqueTokens [] u = tt
    updated-UniqueTokens (s ∷ shares) (n, u) =
        ground
          (arith, token_kept s, any_token_updated s.token shares, updated-UniqueTokens shares u)

    pub updated-Known :
        (shares : List (Share S)) (logs : List AccessLog)
        → All (Known shares) logs
        → All (Known (update_token token f shares)) logs
    updated-Known shares [] k = tt
    updated-Known shares (log ∷ logs) (here, k) =
        (any_id_updated log.share_id shares ∙ here, updated-Known shares logs k)
