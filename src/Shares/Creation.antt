-- ===== src/Shares/Creation.antt =====
-- apps/api/src/modules/shares/shares.service.ts: `resolveExpiry` and `create`. The id and the token
-- are arguments. `parse` is `JSON.parse`, `size` the length of what `JSON.stringify` gives, `date` the
-- time of a date as text, nothing for an invalid one, and `year_later` the time one year later. The
-- text `null` as a snapshot is left out.
use soroban_dev_console.Shared.{
  ℕ, ◌+◌, ◌*◌, String, Bool, true, false, not, Option, none, some, List, [], ◌∷◌, ◌++◌, ltb, leb,
  find, any, str_eq, if◌then◌else◌,
}
use soroban_dev_console.Sanitizer.{Json, SanitizedSnapshotResult, sanitize_snapshot_payload}
use soroban_dev_console.Workspaces.{has_id, truthy}
use soroban_dev_console.Shares.{
  Share, Links, Outcome, done, not_found, forbidden, bad_request, conflict, internal_error,
  has_token, audited,
}
use soroban_dev_console.Shares.Payloads.{sort_json_keys, json_depth, normalize_snapshot}

abbrev pub max_snapshot_size_bytes : ℕ
max_snapshot_size_bytes = 500000

abbrev pub max_json_depth : ℕ
max_json_depth = 10

pub record CreateShareDto {ℓ} (S : Type ℓ) : Type ℓ where
  pub workspace_id : String
  pub label : Option String
  pub snapshot_json : Option (Json S)
  pub exclude_custom_auth_headers : Option Bool
  pub expires_at : Option String
  pub expires_in_seconds : Option ℕ

-- No expiry, a time, or an `Invalid Date`; or the request is refused.
pub data Expiry : Type 0 where
  never invalid refused : Expiry
  at : ℕ → Expiry

module _ (date : String → Option ℕ) (year_later : ℕ → ℕ) where
  abbrev pub bounded : ℕ → ℕ → Expiry
  bounded now t = if leb t now then refused else if ltb (year_later now) t then refused else at t

  abbrev pub expiry_at : ℕ → Option String → Expiry
  expiry_at now none = never
  expiry_at now (some text) = elim (truthy text) [
    | none ↦ never
    | some t ↦ elim (date t) [ none ↦ invalid | some time ↦ bounded now time ]
  ]

  unfoldable pub resolve_expiry : ℕ → Option ℕ → Option String → Expiry
  resolve_expiry now (some seconds) expires_at = bounded now (now + seconds * 1000)
  resolve_expiry now none expires_at = expiry_at now expires_at

-- `dto.excludeCustomAuthHeaders !== false`
abbrev pub is_excluding : Option Bool → Bool
is_excluding none = true
is_excluding (some b) = b

abbrev pub unsanitized {ℓ} : {S : Type ℓ} → Json S → SanitizedSnapshotResult S
unsanitized v = record { snapshot = v; detected_sensitive_keys = []; sanitized = false }

pub record Created {ℓ} (S : Type ℓ) : Type ℓ where
  pub share : Share S
  pub sanitized : Bool
  pub stripped_sensitive_keys : List String

abbrev pub row_of {ℓ} :
    {S : Type ℓ} → ℕ → String → String → CreateShareDto S → Json S → Option ℕ → Share S
row_of now id token dto snapshot expires_at = record {
  id = id;
  workspace_id = dto.workspace_id;
  token = token;
  label = dto.label;
  snapshot_json = snapshot;
  view_count = 0;
  expires_at = expires_at;
  revoked_at = none;
  created_at = now;
}

module _ {ℓ} {S : Type ℓ} (lower : String → String) (sort : List String → List String)
    (parse : String → Option (Json S)) (size : Json S → ℕ) (date : String → Option ℕ)
    (year_later : ℕ → ℕ) where
  -- `repository.create`: an invalid date or a known token is refused by the database.
  unfoldable pub save :
      ℕ
      → String
      → String
      → String
      → CreateShareDto S
      → Expiry
      → SanitizedSnapshotResult S
      → Json S
      → Links S
      → Outcome (Created S) × Links S
  save now id token owner_key dto expiry out snapshot l =
      let saved : Option ℕ → Outcome (Created S) × Links S = λ expires_at. (
        done (record {
          share = row_of now id token dto snapshot expires_at;
          sanitized = out.sanitized;
          stripped_sensitive_keys = out.detected_sensitive_keys;
        }),
        audited owner_key "share.created" id
            (record l { shares = l.shares ++ row_of now id token dto snapshot expires_at ∷ [] }),
      ) in
      if any (λ s. str_eq s.id id) l.shares
      then (conflict, l)
      else if any (has_token token) l.shares
      then (conflict, l)
      else elim expiry [
        | never ↦ saved none
        | at t ↦ saved (some t)
        | invalid ↦ (internal_error, l)
        | refused ↦ (bad_request, l)
      ]

  -- The checks of the snapshot, and the write.
  unfoldable pub check :
      ℕ
      → String
      → String
      → String
      → CreateShareDto S
      → Expiry
      → Json S
      → Links S
      → Outcome (Created S) × Links S
  check now id token owner_key dto expiry snapshot l =
      let out =
        if is_excluding dto.exclude_custom_auth_headers
        then sanitize_snapshot_payload lower sort snapshot
        else unsanitized snapshot in
      let deterministic = sort_json_keys sort out.snapshot in
      if ltb max_snapshot_size_bytes (size deterministic)
      then (bad_request, l)
      else if ltb max_json_depth (json_depth deterministic 0)
      then (bad_request, l)
      else save now id token owner_key dto expiry out deterministic l

  -- The rest of `create`, once the expiry is known.
  unfoldable pub proceed :
      ℕ
      → String
      → String
      → String
      → CreateShareDto S
      → Expiry
      → Option (Json S)
      → Links S
      → Outcome (Created S) × Links S
  proceed now id token owner_key dto refused snapshot l = (bad_request, l)
  proceed now id token owner_key dto expiry none l = (bad_request, l)
  proceed now id token owner_key dto expiry (some snapshot) l =
      check now id token owner_key dto expiry snapshot l

  unfoldable pub create :
      ℕ → String → String → String → CreateShareDto S → Links S → Outcome (Created S) × Links S
  create now id token owner_key dto l =
      let expiry = resolve_expiry date year_later now dto.expires_in_seconds dto.expires_at in
      elim (find (has_id dto.workspace_id) l.store.rows) [
        | none ↦ (not_found, l)
        | some w ↦
            if not (str_eq w.owner_key owner_key)
            then (forbidden, l)
            else proceed now id token owner_key dto expiry
                (normalize_snapshot parse dto.snapshot_json) l
      ]
