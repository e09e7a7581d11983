-- ===== src/Shares/Changes.antt =====
-- apps/api/src/modules/shares/shares.service.ts: what each request can do to the shares.
use soroban_dev_console.Shared.{
  ℕ, ltb, String, false, not, Option, none, some, [], ◌∷◌, ◌++◌, select, find, any, str_eq,
  if◌then◌else◌, arith, ◌≡◌, refl, Option-cases, Bool-cases, inl, inr,
}
use soroban_dev_console.Sanitizer.{Json, SanitizedSnapshotResult, sanitize_snapshot_payload}
use soroban_dev_console.Workspaces.{has_id}
use soroban_dev_console.Shares.{
  Share, AccessLog, Links, resolve, revoke, cleanup, update_token, viewed, is_ended, is_log_of,
  has_token, is_some, is_expired, is_owned_by,
}
use soroban_dev_console.Shares.Creation.{
  max_snapshot_size_bytes, max_json_depth, is_excluding, unsanitized, row_of, CreateShareDto,
  Expiry, never, at, invalid, refused, create, proceed, check, save, resolve_expiry,
}
use soroban_dev_console.Shares.Payloads.{normalize_snapshot, sort_json_keys, json_depth}
use soroban_dev_console.Shares.Forks.{fork, forked}
use soroban_dev_console.Shares.Histories.{
  Host, Request, creates, resolves, revokes, forks, cleans, step,
}

module _ {ℓ} {S : Type ℓ} where
  -- What a request at a time can do to the shares and their access logs.
  pub data Change (now : ℕ) (request : Request S) (before after : Links S) : Type ℓ where
    kept :
        after.shares ≡ before.shares
        → after.access_logs ≡ before.access_logs
        → Change now request before after
    added :
        (id token owner_key : String) (dto : CreateShareDto S) (share : Share S)
        → request ≡ creates id token owner_key dto
        → share.token ≡ token
        → share.view_count ≡ 0
        → any (λ s. str_eq s.id share.id) before.shares ≡ false
        → any (has_token share.token) before.shares ≡ false
        → after.shares ≡ before.shares ++ share ∷ []
        → after.access_logs ≡ before.access_logs
        → Change now request before after
    seen :
        (token : String) (share : Share S) (log : AccessLog)
        → find (has_token token) before.shares ≡ some share
        → log.share_id ≡ share.id
        → is_ended now share ≡ false
        → after.shares ≡ update_token token viewed before.shares
        → after.access_logs ≡ before.access_logs ++ log ∷ []
        → Change now request before after
    withdrawn :
        (token : String)
        → after.shares ≡ update_token token (λ s. record s { revoked_at = some now }) before.shares
        → after.access_logs ≡ before.access_logs
        → Change now request before after
    swept :
        after.shares ≡ select (λ s. not (is_ended now s)) before.shares
        → after.access_logs
          ≡ select
              (λ log. not (is_log_of (select (is_ended now) before.shares) log))
              before.access_logs
        → Change now request before after

  resolve-Change :
      (now : ℕ) (request : Request S) (token : String) (ip user_agent : Option String) (l : Links S)
      → Change now request l (resolve now token ip user_agent l).1
  unfolding resolve
  resolve-Change now request token ip user_agent l =
      elim (Option-cases (find (has_token token) l.shares)) [
        | inl missing ↦ kept (ground (arith, missing)) (ground (arith, missing))
        | inr (share, found) ↦ elim (Bool-cases (is_some share.revoked_at)) [
          | inl withdrawn_before ↦
              kept (ground (arith, found, withdrawn_before))
                (ground (arith, found, withdrawn_before))
          | inr live ↦ elim (Bool-cases (is_expired now share.expires_at)) [
            | inl late ↦
                kept (ground (arith, found, live, late)) (ground (arith, found, live, late))
            | inr timely ↦
                seen token share
                  (record {
                    share_id = share.id;
                    accessed_at = now;
                    ip = ip;
                    user_agent = user_agent;
                  })
                  found refl (ground (arith, live, timely)) (ground (arith, found, live, timely))
                  (ground (arith, found, live, timely))
          ]
        ]
      ]

  revoke-Change :
      (now : ℕ) (request : Request S) (token owner_key : String) (l : Links S)
      → Change now request l (revoke now token owner_key l).1
  unfolding revoke
  revoke-Change now request token owner_key l =
      elim (Option-cases (find (has_token token) l.shares)) [
        | inl missing ↦ kept (ground (arith, missing)) (ground (arith, missing))
        | inr (share, found) ↦
            elim (Bool-cases
              (not (is_owned_by owner_key (find (has_id share.workspace_id) l.store.rows)))) [
                | inl other ↦ kept (ground (arith, found, other)) (ground (arith, found, other))
                | inr own ↦ elim (Bool-cases (is_some share.revoked_at)) [
                  | inl already ↦
                      kept (ground (arith, found, own, already))
                        (ground (arith, found, own, already))
                  | inr live ↦
                      withdrawn token (ground (arith, found, own, live))
                        (ground (arith, found, own, live))
                ]
              ]
      ]

  module _ (h : Host S) (now : ℕ) (id token owner_key : String) (dto : CreateShareDto S)
      (l : Links S) where
    saved-Change :
        (expires_at : Option ℕ) (snapshot : Json S) (after : Links S)
        → any (λ s. str_eq s.id id) l.shares ≡ false
        → any (has_token token) l.shares ≡ false
        → after.shares ≡ l.shares ++ row_of now id token dto snapshot expires_at ∷ []
        → after.access_logs ≡ l.access_logs
        → Change now (creates id token owner_key dto) l after
    saved-Change expires_at snapshot after free fresh =
        added id token owner_key dto (row_of now id token dto snapshot expires_at) refl refl refl
          free fresh

    fresh-Change :
        (expiry : Expiry) (out : SanitizedSnapshotResult S) (snapshot : Json S)
        → any (λ s. str_eq s.id id) l.shares ≡ false
        → any (has_token token) l.shares ≡ false
        → Change now
            (creates id token owner_key dto)
            l
            (save h.lower h.sort h.parse h.size h.date h.year_later now id token owner_key dto
              expiry out snapshot l).1
    unfolding save
    fresh-Change never out snapshot free fresh =
        saved-Change none snapshot _ free fresh (rw (free, fresh) refl) (rw (free, fresh) refl)
    fresh-Change (at t) out snapshot free fresh =
        saved-Change (some t) snapshot _ free fresh (rw (free, fresh) refl) (rw (free, fresh) refl)
    fresh-Change invalid out snapshot free fresh = rw (free, fresh) (kept refl refl)
    fresh-Change refused out snapshot free fresh = rw (free, fresh) (kept refl refl)

    save-Change :
        (expiry : Expiry) (out : SanitizedSnapshotResult S) (snapshot : Json S)
        → Change now
            (creates id token owner_key dto)
            l
            (save h.lower h.sort h.parse h.size h.date h.year_later now id token owner_key dto
              expiry out snapshot l).1
    unfolding save
    save-Change expiry out snapshot = elim (Bool-cases (any (λ s. str_eq s.id id) l.shares)) [
      | inl taken ↦ rw taken (kept refl refl)
      | inr free ↦ elim (Bool-cases (any (has_token token) l.shares)) [
        | inl used ↦ rw (free, used) (kept refl refl)
        | inr fresh ↦ fresh-Change expiry out snapshot free fresh
      ]
    ]

    check-Change :
        (expiry : Expiry) (snapshot : Json S)
        → Change now
            (creates id token owner_key dto)
            l
            (check h.lower h.sort h.parse h.size h.date h.year_later now id token owner_key dto
              expiry snapshot l).1
    unfolding check
    check-Change expiry snapshot =
        let kept_now =
          if is_excluding dto.exclude_custom_auth_headers
          then sanitize_snapshot_payload h.lower h.sort snapshot
          else unsanitized snapshot in
        let deterministic = sort_json_keys h.sort kept_now.snapshot in
        elim (Bool-cases (ltb max_snapshot_size_bytes (h.size deterministic))) [
          | inl large ↦ rw large (kept refl refl)
          | inr small ↦ elim (Bool-cases (ltb max_json_depth (json_depth deterministic 0))) [
            | inl deep ↦ rw (small, deep) (kept refl refl)
            | inr shallow ↦ rw (small, shallow) (save-Change expiry kept_now deterministic)
          ]
        ]

    proceed-Change :
        (expiry : Expiry) (snapshot : Option (Json S))
        → Change now
            (creates id token owner_key dto)
            l
            (proceed h.lower h.sort h.parse h.size h.date h.year_later now id token owner_key dto
              expiry snapshot l).1
    unfolding proceed
    proceed-Change refused snapshot = kept refl refl
    proceed-Change never none = kept refl refl
    proceed-Change (at t) none = kept refl refl
    proceed-Change invalid none = kept refl refl
    proceed-Change never (some snapshot) = check-Change never snapshot
    proceed-Change (at t) (some snapshot) = check-Change (at t) snapshot
    proceed-Change invalid (some snapshot) = check-Change invalid snapshot

    create-Change :
        Change now
          (creates id token owner_key dto)
          l
          (create h.lower h.sort h.parse h.size h.date h.year_later now id token owner_key dto l).1
    unfolding create
    create-Change = elim (Option-cases (find (has_id dto.workspace_id) l.store.rows)) [
      | inl missing ↦ kept (ground (arith, missing)) (ground (arith, missing))
      | inr (w, found) ↦ elim (Bool-cases (not (str_eq w.owner_key owner_key))) [
        | inl other ↦ kept (ground (arith, found, other)) (ground (arith, found, other))
        | inr own ↦
            let expiry =
              resolve_expiry h.date h.year_later now dto.expires_in_seconds dto.expires_at in
            let snapshot = normalize_snapshot h.parse dto.snapshot_json in
            let same : create h.lower h.sort h.parse h.size h.date h.year_later now id token
                  owner_key dto l
                ≡ proceed h.lower h.sort h.parse h.size h.date h.year_later now id token owner_key
                    dto expiry snapshot l =
              ground (arith, found, own) in
            rw same (proceed-Change expiry snapshot)
      ]
    ]

  fork-Change :
      (h : Host S) (now : ℕ) (request : Request S) (id : String) (fresh : ℕ → String)
      (token owner_key : String) (name : Option String) (l : Links S)
      → Change now request l (fork h.is_null h.show now id fresh token owner_key name l).1
  unfolding fork
  fork-Change h now request id fresh token owner_key name l =
      elim (Option-cases (find (has_token token) l.shares)) [
        | inl missing ↦ kept (ground (arith, missing)) (ground (arith, missing))
        | inr (share, found) ↦
            elim (Option-cases
              (forked h.is_null h.show id fresh owner_key name share.snapshot_json)) [
                | inl broken ↦ kept (ground (arith, found, broken)) (ground (arith, found, broken))
                | inr (w, made) ↦ kept (ground (arith, found, made)) (ground (arith, found, made))
              ]
      ]

  pub step-Change :
      (h : Host S) (now : ℕ) (request : Request S) (l : Links S)
      → Change now request l (step h now request l)
  unfolding step cleanup
  step-Change h now (creates id token owner_key dto) l =
      create-Change h now id token owner_key dto l
  step-Change h now (resolves token ip user_agent) l = resolve-Change now _ token ip user_agent l
  step-Change h now (revokes token owner_key) l = revoke-Change now _ token owner_key l
  step-Change h now (forks id fresh token owner_key name) l =
      fork-Change h now _ id fresh token owner_key name l
  step-Change h now cleans l = swept refl refl
