-- ===== src/Sanitizer.antt =====
-- apps/api/src/modules/shares/share-payload-sanitizer.ts: the removal of secrets from the snapshot
-- of a share link. `lower` stands for `toLowerCase` and `sort` for `Array.prototype.sort`. A scalar
-- is null, a number or a Boolean, a literal is a text. The keys of an object are distinct, and none is `__proto__`.
pub mod Redaction
pub mod Detection
mod Tests
use Prim.Native.String
use Prim.Native.Char.{Char, code}
use text.Mathlib.Text.{find?, starts_with}
use soroban_dev_console.Shared.{
  ℕ, ◌+◌, String, Bool, true, false, ◌&&◌, ◌||◌, Option, none, some, List, [], ◌∷◌, ◌++◌, ltb, ◌==◌,
  if◌then◌else◌, length, has,
}

mutual
  pub data Json {ℓ} (S : Type ℓ) : Type ℓ where
    scalar : S → Json S
    literal : String → Json S
    array : Items S → Json S
    object : Fields S → Json S

  pub data Items {ℓ} (S : Type ℓ) : Type ℓ where
    nil : Items S
    cons : Json S → Items S → Items S

  pub data Fields {ℓ} (S : Type ℓ) : Type ℓ where
    end : Fields S
    field : String → Json S → Fields S → Fields S

pub record SanitizedSnapshotResult {ℓ} (S : Type ℓ) : Type ℓ where
  pub snapshot : Json S
  pub detected_sensitive_keys : List String
  pub sanitized : Bool

abbrev pub redacted : String
redacted = "[REDACTED]"

abbrev pub sensitive_header_keys : List String
sensitive_header_keys =
    "authorization" ∷ "proxy-authorization" ∷ "x-api-key" ∷ "api-key" ∷ "apikey" ∷ "x-api-token"
    ∷ "x-auth-token" ∷ "x-access-token" ∷ "auth-token" ∷ "x-token" ∷ "set-cookie" ∷ "cookie"
    ∷ "x-owner-key" ∷ "owner-key" ∷ "client-secret" ∷ "clientsecret" ∷ "x-rpc-secret" ∷ "rpc-secret"
    ∷ "x-rpc-key" ∷ []

abbrev pub max_depth : ℕ
max_depth = 64

-- `replace(/_/g, "-")`
unfoldable pub dashed : String → String
dashed String.[] = ""
dashed (String.◌∷◌ c s) =
    if code c == b'_' then String.◌++◌ "-" (dashed s) else String.◌∷◌ c (dashed s)

abbrev pub includes : String → String → Bool
includes whole part = elim (find? whole part) [ none ↦ false | some i ↦ true ]

-- `at.join(".")`
unfoldable pub join : List String → String
join [] = ""
join (key ∷ []) = key
join (key ∷ k ∷ keys) = String.◌++◌ key (String.◌++◌ "." (join (k ∷ keys)))

-- `Set.prototype.add`
unfoldable pub add : String → List String → List String
add key keys = if has key keys then keys else keys ++ key ∷ []

module _ (lower : String → String) where
  unfoldable pub is_sensitive_key : String → Bool
  unfolding dashed
  is_sensitive_key key =
      let normalized = dashed (lower key) in
      has normalized sensitive_header_keys
      || includes normalized "secret"
      || (starts_with normalized "x-" && (includes normalized "key" || includes normalized "token"))

  -- `walk`, with `detectedSensitiveKeys` passed through.
  unfoldable mutual
    pub walk {ℓ} : {S : Type ℓ} → Json S → List String → ℕ → List String → Json S × List String
    walk (scalar x) path depth found = (scalar x, found)
    walk (literal s) path depth found = (literal s, found)
    walk (array items) path depth found =
        let (items', found') = walk_items items path (depth + 1) found in
        if ltb max_depth depth then (array items, found) else (array items', found')
    walk (object fields) path depth found =
        let (fields', found') = walk_fields fields path (depth + 1) found in
        if ltb max_depth depth then (object fields, found) else (object fields', found')

    pub walk_items {ℓ} :
        {S : Type ℓ} → Items S → List String → ℕ → List String → Items S × List String
    walk_items nil path depth found = (nil, found)
    walk_items (cons item items) path depth found =
        let (item', found₁) = walk item path depth found in
        let (items', found₂) = walk_items items path depth found₁ in (cons item' items', found₂)

    pub walk_fields {ℓ} :
        {S : Type ℓ} → Fields S → List String → ℕ → List String → Fields S × List String
    walk_fields end path depth found = (end, found)
    walk_fields (field key child fields) path depth found =
        let is_sensitive = is_sensitive_key key in
        let at = path ++ key ∷ [] in
        let (child', walked) = walk child at depth found in
        let found₁ = if is_sensitive then add (join at) found else walked in
        let (fields', found₂) = walk_fields fields path depth found₁ in
        (field key (if is_sensitive then literal redacted else child') fields', found₂)

  module _ (sort : List String → List String) where
    unfoldable pub sanitize_snapshot_payload {ℓ} : {S : Type ℓ} → Json S → SanitizedSnapshotResult S
    sanitize_snapshot_payload payload =
        let (snapshot, detected) = walk payload [] 0 [] in
        let keys = sort detected in
        record {
          snapshot = snapshot;
          detected_sensitive_keys = keys;
          sanitized = ltb 0 (length keys);
        }
