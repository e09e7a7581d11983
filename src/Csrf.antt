-- ===== src/Csrf.antt =====
-- apps/api/src/common/guards/csrf.guard.ts: the double-submit cookie. `upper` stands for `toUpperCase`,
-- `units` for the length of a text, `decode` for `Buffer.from(text, "hex")`, a random token is an
-- argument, and `is_production` is the test of the environment. `timingSafeEqual` compares bytes and
-- throws for different lengths, which the guard takes as no match.
pub mod Tokens
mod Tests
use soroban_dev_console.Shared.{
  ℕ, String, Bool, true, false, ◌&&◌, not, Option, none, some, List, [], ◌∷◌, ◌==◌, str_eq, has,
  if◌then◌else◌,
}

abbrev pub mutating_methods : List String
mutating_methods = "POST" ∷ "PUT" ∷ "PATCH" ∷ "DELETE" ∷ []

-- A header of node's requests: it is absent, a text, or a list of texts.
pub data Header : Type 0 where
  absent : Header
  single : String → Header
  several : List String → Header

pub record Request : Type 0 where
  pub method : String
  pub cookie : Option String
  pub header : Header

pub record Cookie : Type 0 where
  pub value : String
  pub http_only : Bool
  pub secure : Bool
  pub same_site : String
  pub path : String

pub data Answer : Type 0 where
  allowed : Cookie → Answer
  token_missing token_mismatch : Answer

unfoldable pub same_bytes : List ℕ → List ℕ → Bool
same_bytes [] [] = true
same_bytes (x ∷ xs) (y ∷ ys) = (x == y) && same_bytes xs ys
same_bytes _ _ = false

unfoldable pub extract_cookie_token : Request → Option String
extract_cookie_token r = elim r.cookie [
  | none ↦ none
  | some token ↦ if str_eq token "" then none else some token
]

unfoldable pub extract_header_token : Request → Option String
extract_header_token r = elim r.header [
  | absent ↦ none
  | single s ↦ if str_eq s "" then none else some s
  | several texts ↦ elim texts [ [] ↦ none | t ∷ ts ↦ some t ]
]

module _ (upper : String → String) (units : String → ℕ) (decode : String → List ℕ)
    (is_production : Bool) where
  unfoldable pub tokens_match : String → String → Bool
  tokens_match a b = if units a == units b then same_bytes (decode a) (decode b) else false

  abbrev pub is_mutating : Request → Bool
  is_mutating r = has (upper r.method) mutating_methods

  unfoldable pub cookie_of : String → Cookie
  cookie_of token = record {
    value = token;
    http_only = false;
    secure = is_production;
    same_site = "strict";
    path = "/";
  }

  -- `refreshCsrfCookie`: the cookie that is set; `fresh` is a new random token.
  unfoldable pub refresh_csrf_cookie : String → Request → Cookie
  refresh_csrf_cookie fresh r = elim (extract_cookie_token r) [
    | none ↦ cookie_of fresh
    | some existing ↦ cookie_of existing
  ]

  -- The check of the two tokens, where an empty text counts as none.
  unfoldable pub check_tokens : String → Request → Option String → Option String → Answer
  check_tokens fresh r none header = token_missing
  check_tokens fresh r (some c) none = token_missing
  check_tokens fresh r (some c) (some h) =
      if str_eq h ""
      then token_missing
      else if tokens_match c h
      then allowed (refresh_csrf_cookie fresh r)
      else token_mismatch

  unfoldable pub can_activate : String → Request → Answer
  can_activate fresh r =
      if is_mutating r
      then check_tokens fresh r (extract_cookie_token r) (extract_header_token r)
      else allowed (refresh_csrf_cookie fresh r)
