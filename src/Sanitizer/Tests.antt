-- ===== src/Sanitizer/Tests.antt =====
-- apps/api/src/modules/shares/share-payload-sanitizer.ts: the results at concrete payloads.
use soroban_dev_console.Shared.{ℕ, ◌≡◌, refl, true, false, [], ◌∷◌, arith}
use soroban_dev_console.Sanitizer.{
  Json, scalar, literal, array, object, nil, cons, end, field, is_sensitive_key, dashed, add, join,
  walk, sanitize_snapshot_payload,
}
use soroban_dev_console.Sanitizer.Redaction.{height, IsClean, sanitize_snapshot_payload-IsClean}

-- The texts of these payloads are in lower case, and at most one key of each is detected.
abbrev same {ℓ} : {A : Type ℓ} → A → A
same x = x

abbrev secret : Json ℕ
secret = object (field "rpc_secret" (literal "s3") end)

abbrev payload : Json ℕ
payload =
    object (
      field "calls" (array (cons secret (cons (scalar 3) nil))) (field "name" (literal "demo") end))

abbrev plain : Json ℕ
plain = object (field "name" (literal "demo") end)

is_sensitive_key-true : is_sensitive_key same "rpc_secret" ≡ true
unfolding is_sensitive_key dashed
is_sensitive_key-true = refl

-- The key `accessToken` in lower case.
is_sensitive_key_access_token : is_sensitive_key same "accesstoken" ≡ false
unfolding is_sensitive_key dashed
is_sensitive_key_access_token = refl

detected_keys :
    (sanitize_snapshot_payload same same payload).detected_sensitive_keys ≡ "calls.rpc_secret" ∷ []
unfolding sanitize_snapshot_payload walk is_sensitive_key dashed add join
detected_keys = refl

sanitize_snapshot_payload-IsClean_example :
    IsClean same (sanitize_snapshot_payload same same payload).snapshot
unfolding height
sanitize_snapshot_payload-IsClean_example =
    sanitize_snapshot_payload-IsClean same same payload (omega arith)
