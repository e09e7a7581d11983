-- ===== src/Shares/Views.antt =====
-- apps/api/src/modules/shares/shares.service.ts: the number of views and the access logs.
use mathlib.Core.Path.{subst}
use soroban_dev_console.Shared.{
  ℕ, String, Bool, true, false, not, some, List, [], ◌∷◌, ◌++◌, select, find, any, str_eq, arith,
  ◌≡◌, ◌∙◌, ap, sym, refl, Bool-cases, inl, inr, eq_iff, str_eq_self, All, All-append, All-select,
}
use soroban_dev_console.Shares.{
  Share, AccessLog, Links, update_token, viewed, is_ended, is_log_of, has_token,
}
use soroban_dev_console.Shares.Histories.{Host, Request, step, run}
use soroban_dev_console.Shares.Changes.{Change, kept, added, seen, withdrawn, swept, step-Change}
use soroban_dev_console.Shares.Counting.{
  count, count_end, count_none, has_share_id, UniqueShareIds, Counts, Known, IsCounted,
  UniqueShareIds-end, UniqueTokens-end, any_end, updated-UniqueShareIds, updated-UniqueTokens,
  updated-Known,
}
use soroban_dev_console.Shares.Ended.{UniqueTokens}

module _ {ℓ} {S : Type ℓ} where
  find-id :
      (token : String) (shares : List (Share S)) (share : Share S)
      → find (has_token token) shares ≡ some share
      → any (has_share_id share.id) shares ≡ true
  find-id token [] share h = absurd (ground (arith, h))
  find-id token (s ∷ shares) share h = elim (Bool-cases (has_token token s)) [
    | inl here ↦
        let same : s ≡ share = ground (arith, h, here) in
        subst (λ x. any (has_share_id x.id) (s ∷ shares) ≡ true) same
          (ground (arith, str_eq_self s.id))
    | inr there ↦ ground (arith, find-id token shares share (ground (arith, h, there)))
  ]

  module _ (token : String) (logs : List AccessLog) (log : AccessLog) where
    other-Counts :
        (s : Share S)
        → str_eq log.share_id s.id ≡ false
        → Counts logs s
        → Counts (logs ++ log ∷ []) s
    other-Counts s n c = let e = count_end s.id logs log in ground (arith, e, n, c)

    viewed-Counts :
        (s : Share S) → log.share_id ≡ s.id → Counts logs s → Counts (logs ++ log ∷ []) (viewed s)
    viewed-Counts s same c =
        let e = count_end s.id logs log in
        let yes_it_is = (eq_iff log.share_id s.id).1 same in ground (arith, e, yes_it_is, c)

    other_id :
        (s : Share S) (shares : List (Share S))
        → any (has_share_id s.id) shares ≡ false
        → any (has_share_id log.share_id) shares ≡ true
        → str_eq log.share_id s.id ≡ false
    other_id s shares n h = elim (Bool-cases (str_eq log.share_id s.id)) [
      | inl same ↦
          let n' : any (has_share_id log.share_id) shares ≡ false =
            subst (λ i. any (has_share_id i) shares ≡ false)
              (sym ((eq_iff log.share_id s.id).0 same)) n in
          absurd (ground (arith, n', h))
      | inr other ↦ other
    ]

    others-Counts :
        (shares : List (Share S))
        → any (has_token token) shares ≡ false
        → any (has_share_id log.share_id) shares ≡ false
        → All (Counts logs) shares
        → All (Counts (logs ++ log ∷ [])) (update_token token viewed shares)
    unfolding update_token
    others-Counts [] n m h = tt
    others-Counts (s ∷ shares) n m (c, h) =
        let not_here : has_token token s ≡ false = ground (arith, n) in
        rw not_here (
          other-Counts s (ground (arith, m, eq_iff s.id log.share_id, eq_iff log.share_id s.id)) c,
          others-Counts shares (ground (arith, n)) (ground (arith, m)) h,
        )

    seen-Counts :
        (shares : List (Share S)) (share : Share S)
        → UniqueShareIds shares
        → UniqueTokens shares
        → find (has_token token) shares ≡ some share
        → log.share_id ≡ share.id
        → All (Counts logs) shares
        → All (Counts (logs ++ log ∷ [])) (update_token token viewed shares)
    unfolding update_token
    seen-Counts [] share u v e same h = tt
    seen-Counts (s ∷ shares) share (n, u) (m, v) e same (c, h) =
        elim (Bool-cases (has_token token s)) [
          | inl here ↦
              let found : s ≡ share = ground (arith, e, here) in
              let id_same : log.share_id ≡ s.id = same ∙ ap (λ x. x.id) (sym found) in
              rw here (
                viewed-Counts s id_same c,
                others-Counts shares
                    (subst (λ k. any (has_token k) shares ≡ false) ((eq_iff s.token token).0 here)
                      m)
                    (subst (λ k. any (has_share_id k) shares ≡ false) (sym id_same) n) h,
              )
          | inr there ↦
              let later : find (has_token token) shares ≡ some share = ground (arith, e, there) in
              let there_too : any (has_share_id log.share_id) shares ≡ true =
                rw same (find-id token shares share later) in
              rw there (
                other-Counts s (other_id s shares n there_too) c,
                seen-Counts shares share u v later same h,
              )
        ]

  any-select :
      (q p : Share S → Bool) (shares : List (Share S))
      → any q shares ≡ false
      → any q (select p shares) ≡ false
  any-select q p [] n = refl
  any-select q p (s ∷ shares) n = ground (arith, any-select q p shares)

  select-UniqueShareIds :
      (p : Share S → Bool) (shares : List (Share S))
      → UniqueShareIds shares
      → UniqueShareIds (select p shares)
  select-UniqueShareIds p [] u = tt
  select-UniqueShareIds p (s ∷ shares) (n, u) =
      ground (arith, any-select (has_share_id s.id) p shares n, select-UniqueShareIds p shares u)

  select-UniqueTokens :
      (p : Share S → Bool) (shares : List (Share S))
      → UniqueTokens shares
      → UniqueTokens (select p shares)
  select-UniqueTokens p [] u = tt
  select-UniqueTokens p (s ∷ shares) (n, u) =
      ground (arith, any-select (has_token s.token) p shares n, select-UniqueTokens p shares u)

  apart :
      (id : String) (p : Share S → Bool) (shares : List (Share S))
      → UniqueShareIds shares
      → any (has_share_id id) (select (λ s. not (p s)) shares) ≡ true
      → any (has_share_id id) (select p shares) ≡ false
  apart id p [] u h = refl
  apart id p (s ∷ shares) (n, u) h = ground (
    arith,
    eq_iff s.id id,
    any-select (has_share_id id) p shares,
    any-select (has_share_id id) (λ s. not (p s)) shares,
    apart id p shares u,
  )

  rest_known :
      (id : String) (p : Share S → Bool) (shares : List (Share S))
      → any (has_share_id id) shares ≡ true
      → any (has_share_id id) (select p shares) ≡ false
      → any (has_share_id id) (select (λ s. not (p s)) shares) ≡ true
  rest_known id p [] h n = h
  rest_known id p (s ∷ shares) h n = ground (arith, rest_known id p shares)

  count_swept :
      (id : String) (gone : List (Share S)) (logs : List AccessLog)
      → any (has_share_id id) gone ≡ false
      → count id (select (λ log. not (is_log_of gone log)) logs) ≡ count id logs
  count_swept id gone [] n = refl
  count_swept id gone (log ∷ logs) n = elim (Bool-cases (is_log_of gone log)) [
    | inl dropped ↦ rw dropped (elim (Bool-cases (str_eq log.share_id id)) [
      | inl same ↦
          let dropped' : any (has_share_id id) gone ≡ true =
            subst (λ i. any (has_share_id i) gone ≡ true) ((eq_iff log.share_id id).0 same)
              dropped in
          absurd (ground (arith, dropped', n))
      | inr other ↦ ground (arith, other, count_swept id gone logs n)
    ])
    | inr stays ↦ rw stays (ground (arith, count_swept id gone logs n))
  ]

  swept-Counts :
      (gone left : List (Share S)) (logs : List AccessLog)
      → ((id : String) → any (has_share_id id) left ≡ true → any (has_share_id id) gone ≡ false)
      → All (Counts logs) left
      → All (Counts (select (λ log. not (is_log_of gone log)) logs)) left
  swept-Counts gone [] logs f h = tt
  swept-Counts gone (s ∷ left) logs f (c, h) = (
    c ∙ sym (count_swept s.id gone logs (f s.id (ground (arith, str_eq_self s.id)))),
    swept-Counts gone left logs (λ id e. f id (ground (arith, e))) h,
  )

  swept-Known :
      (p : Share S → Bool) (shares : List (Share S)) (logs : List AccessLog)
      → All (Known shares) logs
      → All
          (Known (select (λ s. not (p s)) shares))
          (select (λ log. not (is_log_of (select p shares) log)) logs)
  swept-Known p shares [] k = tt
  swept-Known p shares (log ∷ logs) (here, k) =
      elim (Bool-cases (is_log_of (select p shares) log)) [
        | inl dropped ↦ rw dropped (swept-Known p shares logs k)
        | inr stays ↦
            rw stays (rest_known log.share_id p shares here stays, swept-Known p shares logs k)
      ]

  Known-end :
      (share : Share S) (shares : List (Share S)) (logs : List AccessLog)
      → All (Known shares) logs
      → All (Known (shares ++ share ∷ [])) logs
  Known-end share shares [] k = tt
  Known-end share shares (log ∷ logs) (here, k) = (
    ground (arith, here, any_end (has_share_id log.share_id) shares share),
    Known-end share shares logs k,
  )

  updated-Counts :
      (token : String) (f : Share S → Share S)
      → ((s : Share S) → (f s).id ≡ s.id)
      → ((s : Share S) → (f s).view_count ≡ s.view_count)
      → (logs : List AccessLog) (shares : List (Share S)) → All (Counts logs) shares
      → All (Counts logs) (update_token token f shares)
  unfolding update_token
  updated-Counts token f i n logs [] h = tt
  updated-Counts token f i n logs (s ∷ shares) (c, h) = elim (Bool-cases (has_token token s)) [
    | inl here ↦
        rw here
          (n s ∙ c ∙ ap (λ x. count x logs) (sym (i s)), updated-Counts token f i n logs shares h)
    | inr there ↦ rw there (c, updated-Counts token f i n logs shares h)
  ]

  Change-IsCounted :
      (now : ℕ) (request : Request S) (before after : Links S)
      → Change now request before after
      → IsCounted before
      → IsCounted after
  Change-IsCounted now request before after (kept e logs) v = record {
    ids = rw e v.ids;
    tokens = rw e v.tokens;
    counts = rw (e, logs) v.counts;
    known = rw (e, logs) v.known;
  }
  Change-IsCounted now request before after
        (added id token owner_key dto share which same zero free fresh e logs) v =
      record {
        ids = rw e (UniqueShareIds-end before.shares share v.ids free);
        tokens = rw e (UniqueTokens-end before.shares share v.tokens fresh);
        counts =
            rw (e, logs)
              (All-append (Counts before.access_logs) before.shares (share ∷ []) v.counts (
                zero ∙ sym (count_none share.id before.shares before.access_logs free v.known),
                tt,
              ));
        known = rw (e, logs) (Known-end share before.shares before.access_logs v.known);
      }
  Change-IsCounted now request before after (seen token share log found same live e logs) v =
      record {
        ids =
            rw e (updated-UniqueShareIds token viewed (λ s. refl) (λ s. refl) before.shares v.ids);
        tokens =
            rw e (updated-UniqueTokens token viewed (λ s. refl) (λ s. refl) before.shares v.tokens);
        counts =
            rw (e, logs)
              (seen-Counts token before.access_logs log before.shares share v.ids v.tokens found
                same v.counts);
        known =
            rw (e, logs)
              (updated-Known token viewed (λ s. refl) (λ s. refl) before.shares
                (before.access_logs ++ log ∷ [])
                (All-append (Known before.shares) before.access_logs (log ∷ []) v.known
                  (rw same (find-id token before.shares share found), tt)));
      }
  Change-IsCounted now request before after (withdrawn token e logs) v =
      let f : Share S → Share S = λ s. record s { revoked_at = some now } in
      record {
        ids = rw e (updated-UniqueShareIds token f (λ s. refl) (λ s. refl) before.shares v.ids);
        tokens = rw e (updated-UniqueTokens token f (λ s. refl) (λ s. refl) before.shares v.tokens);
        counts =
            rw (e, logs)
              (updated-Counts token f (λ s. refl) (λ s. refl) before.access_logs before.shares
                v.counts);
        known =
            rw (e, logs)
              (updated-Known token f (λ s. refl) (λ s. refl) before.shares before.access_logs
                v.known);
      }
  Change-IsCounted now request before after (swept e logs) v =
      let ended = is_ended {S = S} now in
      record {
        ids = rw e (select-UniqueShareIds (λ s. not (ended s)) before.shares v.ids);
        tokens = rw e (select-UniqueTokens (λ s. not (ended s)) before.shares v.tokens);
        counts =
            rw (e, logs)
              (swept-Counts (select ended before.shares) (select (λ s. not (ended s)) before.shares)
                before.access_logs (λ id h. apart id ended before.shares v.ids h)
                (All-select (Counts before.access_logs) (λ s. not (ended s)) before.shares
                  v.counts));
        known = rw (e, logs) (swept-Known ended before.shares before.access_logs v.known);
      }

  -- After any history of requests, the number of views of each share is the number of its access
  -- logs, when this holds to begin with, with unique ids and tokens and no log of an unknown share.
  pub run-IsCounted :
      (host : Host S) (requests : List (ℕ × Request S)) (l : Links S)
      → IsCounted l
      → IsCounted (run host requests l)
  unfolding run
  run-IsCounted host [] l v = v
  run-IsCounted host ((now, request) ∷ later) l v =
      run-IsCounted host later (step host now request l)
        (Change-IsCounted now request l _ (step-Change host now request l) v)
