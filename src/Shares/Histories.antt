-- ===== src/Shares/Histories.antt =====
-- apps/api/src/modules/shares/shares.service.ts: histories of requests, one after the other.
use soroban_dev_console.Shared.{ℕ, String, Bool, Option, List, [], ◌∷◌}
use soroban_dev_console.Sanitizer.{Json}
use soroban_dev_console.Shares.{Links, resolve, revoke, cleanup}
use soroban_dev_console.Shares.Creation.{CreateShareDto, create}
use soroban_dev_console.Shares.Forks.{fork}

-- What the service takes from its host.
pub record Host {ℓ} (S : Type ℓ) : Type ℓ where
  pub lower : String → String
  pub sort : List String → List String
  pub parse : String → Option (Json S)
  pub size : Json S → ℕ
  pub date : String → Option ℕ
  pub year_later : ℕ → ℕ
  pub is_null : S → Bool
  pub show : Json S → String

-- The first two arguments of `creates` are the new id and token, those of `forks` the new ids.
pub data Request {ℓ} (S : Type ℓ) : Type ℓ where
  creates : String → String → String → CreateShareDto S → Request S
  resolves : String → Option String → Option String → Request S
  revokes : String → String → Request S
  forks : String → (ℕ → String) → String → String → Option String → Request S
  cleans : Request S

module _ {ℓ} {S : Type ℓ} (h : Host S) where
  unfoldable pub step : ℕ → Request S → Links S → Links S
  step now (creates id token owner_key dto) l =
      (create h.lower h.sort h.parse h.size h.date h.year_later now id token owner_key dto l).1
  step now (resolves token ip user_agent) l = (resolve now token ip user_agent l).1
  step now (revokes token owner_key) l = (revoke now token owner_key l).1
  step now (forks id fresh token owner_key name) l =
      (fork h.is_null h.show now id fresh token owner_key name l).1
  step now cleans l = (cleanup now l).1

  unfoldable pub run : List (ℕ × Request S) → Links S → Links S
  run [] l = l
  run ((now, request) ∷ later) l = run later (step now request l)
