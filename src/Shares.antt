-- ===== src/Shares.antt =====
-- apps/api/src/modules/shares/shares.service.ts and shares.repository.ts: share links. The table of
-- workspaces and the audit log are those of the workspaces service. `now` is the time of the request,
-- the same at each reading of the clock in one. The events that repeat the audit log are left out.
pub mod Payloads
pub mod Creation
pub mod Forks
pub mod Listing
pub mod Clean
pub mod Stored
pub mod Histories
pub mod Changes
pub mod Ended
pub mod Counting
pub mod Views
mod Tests
use soroban_dev_console.Shared.{
  ℕ, ◌+◌, String, Bool, true, false, not, ◌&&◌, ◌||◌, Option, none, some, List, [], ◌∷◌, ◌++◌, map,
  ltb, length, select, find, any, take, drop, str_eq, if◌then◌else◌,
}
use soroban_dev_console.Sanitizer.{Json}
use soroban_dev_console.Workspaces.{Workspace, Store, has_id, logged, or_else}

pub record Share {ℓ} (S : Type ℓ) : Type ℓ where
  pub id : String
  pub workspace_id : String
  pub token : String
  pub label : Option String
  pub snapshot_json : Json S
  pub view_count : ℕ
  pub expires_at : Option ℕ
  pub revoked_at : Option ℕ
  pub created_at : ℕ

pub record AccessLog : Type 0 where
  pub share_id : String
  pub accessed_at : ℕ
  pub ip : Option String
  pub user_agent : Option String

pub record Links {ℓ} (S : Type ℓ) : Type ℓ where
  pub store : Store
  pub shares : List (Share S)
  pub access_logs : List AccessLog

-- The value, or the exception of this kind.
pub data Outcome {ℓ} (A : Type ℓ) : Type ℓ where
  done : A → Outcome A
  not_found forbidden gone bad_request conflict internal_error : Outcome A

pub record PublicShareView {ℓ} (S : Type ℓ) : Type ℓ where
  pub token : String
  pub label : Option String
  pub snapshot_json : Json S
  pub expires_at : Option ℕ
  pub created_at : ℕ
  pub view_count : ℕ

abbrev pub is_some {ℓ} : {A : Type ℓ} → Option A → Bool
is_some none = false
is_some (some x) = true

-- `expiresAt && expiresAt < new Date()`
abbrev pub is_expired : ℕ → Option ℕ → Bool
is_expired now none = false
is_expired now (some t) = ltb t now

-- `!workspace || workspace.ownerKey !== ownerKey`
abbrev pub is_owned_by : String → Option Workspace → Bool
is_owned_by owner_key none = false
is_owned_by owner_key (some w) = str_eq w.owner_key owner_key

module _ {ℓ} {S : Type ℓ} where
  abbrev pub has_token : String → Share S → Bool
  has_token token share = str_eq share.token token

  abbrev pub viewed : Share S → Share S
  viewed share = record share { view_count = share.view_count + 1 }

  -- `update({ where: { token }, data })`
  unfoldable pub update_token : String → (Share S → Share S) → List (Share S) → List (Share S)
  update_token token f [] = []
  update_token token f (s ∷ shares) =
      (if has_token token s then f s else s) ∷ update_token token f shares

  abbrev pub view_of : Share S → PublicShareView S
  view_of share = record {
    token = share.token;
    label = share.label;
    snapshot_json = share.snapshot_json;
    expires_at = share.expires_at;
    created_at = share.created_at;
    view_count = share.view_count + 1;
  }

  unfoldable pub resolve :
      ℕ → String → Option String → Option String → Links S → Outcome (PublicShareView S) × Links S
  resolve now token ip user_agent l = elim (find (has_token token) l.shares) [
    | none ↦ (not_found, l)
    | some share ↦
        if is_some share.revoked_at
        then (forbidden, l)
        else if is_expired now share.expires_at
        then (gone, l)
        else (
          done (view_of share),
          record l {
            shares = update_token token viewed l.shares;
            access_logs =
                l.access_logs
                ++ record {
                  share_id = share.id;
                  accessed_at = now;
                  ip = ip;
                  user_agent = user_agent;
                }
                  ∷ [];
          },
        )
  ]

  abbrev pub audited : String → String → String → Links S → Links S
  audited actor action id l = record l { store = logged actor action id l.store.rows l.store }

  unfoldable pub revoke : ℕ → String → String → Links S → Outcome (Share S) × Links S
  revoke now token owner_key l = elim (find (has_token token) l.shares) [
    | none ↦ (not_found, l)
    | some share ↦
        if not (is_owned_by owner_key (find (has_id share.workspace_id) l.store.rows))
        then (forbidden, l)
        else if is_some share.revoked_at
        then (done share, l)
        else (
          done (record share { revoked_at = some now }),
          audited owner_key "share.revoked" share.id (record l {
            shares = update_token token (λ s. record s { revoked_at = some now }) l.shares;
          }),
        )
  ]

  -- `deleteExpiredAndRevoked`; the database deletes the access logs of a deleted share with it.
  abbrev pub is_ended : ℕ → Share S → Bool
  is_ended now share = is_some share.revoked_at || is_expired now share.expires_at

  abbrev pub is_log_of : List (Share S) → AccessLog → Bool
  is_log_of shares log = any (λ s. str_eq s.id log.share_id) shares

  unfoldable pub cleanup : ℕ → Links S → ℕ × Links S
  cleanup now l =
      let ended = select (is_ended now) l.shares in
      (
        length ended,
        record l {
          shares = select (λ s. not (is_ended now s)) l.shares;
          access_logs = select (λ log. not (is_log_of ended log)) l.access_logs;
        },
      )
