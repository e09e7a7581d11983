-- ===== src/Csrf/Tests.antt =====
-- apps/api/src/common/guards/csrf.guard.ts: the results at concrete requests.
use soroban_dev_console.Shared.{ℕ, ◌≡◌, refl, String, true, none, some, List, [], ◌∷◌}
use soroban_dev_console.Csrf.{
  Request, absent, single, extract_cookie_token, extract_header_token, cookie_of, can_activate,
  check_tokens, tokens_match, same_bytes, refresh_csrf_cookie,
}
use soroban_dev_console.Csrf.Tokens.{can_activate-tokens}

-- Methods are in upper case here, and every token has one byte.
abbrev same : String → String
same s = s

abbrev one : String → ℕ
one s = 1

abbrev byte : String → List ℕ
byte s = 7 ∷ []

abbrev post : Request
post = record { method = "POST"; cookie = some "07"; header = single "07" }

abbrev get : Request
get = record { method = "GET"; cookie = none; header = absent }

can_activate-tokens_example :
    (t h : String) × (extract_cookie_token post ≡ some t)
    × (extract_header_token post ≡ some h)
    × (one t ≡ one h)
    × (byte t ≡ byte h)
    × ((cookie_of same one byte true "07").value ≡ t)
unfolding can_activate check_tokens tokens_match same_bytes extract_cookie_token
    extract_header_token refresh_csrf_cookie cookie_of
can_activate-tokens_example =
    can_activate-tokens same one byte true "ff" post (cookie_of same one byte true "07") refl refl
