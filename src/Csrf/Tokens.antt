-- ===== src/Csrf/Tokens.antt =====
-- apps/api/src/common/guards/csrf.guard.ts: which requests are allowed, and with which cookie.
use mathlib.Core.Path.{subst}
use soroban_dev_console.Shared.{
  ℕ, ◌≡◌, refl, ◌∙◌, String, Bool, true, false, Option, none, some, List, [], ◌∷◌, arith, str_eq,
  Option-cases, Bool-cases, inl, inr, ap,
}
use soroban_dev_console.Csrf.{
  single, Request, Cookie, allowed, same_bytes, extract_cookie_token, extract_header_token,
  tokens_match, is_mutating, cookie_of, refresh_csrf_cookie, check_tokens, can_activate,
}

same_bytes-eq : (xs ys : List ℕ) → same_bytes xs ys ≡ true → xs ≡ ys
unfolding same_bytes
same_bytes-eq [] [] h = refl
same_bytes-eq (x ∷ xs) (y ∷ ys) h = ground (arith, same_bytes-eq xs ys)
same_bytes-eq [] (y ∷ ys) h = cc
same_bytes-eq (x ∷ xs) [] h = cc

same_bytes_self : (xs : List ℕ) → same_bytes xs xs ≡ true
unfolding same_bytes
same_bytes_self [] = refl
same_bytes_self (x ∷ xs) = ground (arith, same_bytes_self xs)

module _ (upper : String → String) (units : String → ℕ) (decode : String → List ℕ)
    (is_production : Bool) where
  tokens_match_lem :
      (a b : String)
      → tokens_match upper units decode is_production a b ≡ true
      → (units a ≡ units b) × (decode a ≡ decode b)
  unfolding tokens_match
  tokens_match_lem a b h = (ground arith, same_bytes-eq (decode a) (decode b) (ground arith))

  tokens_match_self : (a : String) → tokens_match upper units decode is_production a a ≡ true
  unfolding tokens_match
  tokens_match_self a = ground (arith, same_bytes_self (decode a))

  -- A mutating request that is allowed has a cookie token and a header token of the same length that
  -- decode to the same bytes, and the cookie that is set again has the same token.
  pub can_activate-tokens :
      (fresh : String) (r : Request) (c : Cookie)
      → is_mutating upper units decode is_production r ≡ true
      → can_activate upper units decode is_production fresh r ≡ allowed c
      → (t h : String) × (extract_cookie_token r ≡ some t)
        × (extract_header_token r ≡ some h)
        × (units t ≡ units h)
        × (decode t ≡ decode h)
        × (c.value ≡ t)
  unfolding can_activate check_tokens refresh_csrf_cookie cookie_of
  can_activate-tokens fresh r c m e = elim (Option-cases (extract_cookie_token r)) [
    | inl missing ↦ absurd (ground (arith, missing))
    | inr (t, cookie) ↦ elim (Option-cases (extract_header_token r)) [
      | inl missing ↦ absurd (ground (arith, cookie, missing))
      | inr (h, header) ↦
          let matched : tokens_match upper units decode is_production t h ≡ true =
            ground (arith, cookie, header) in
          let (same_length, same) = tokens_match_lem t h matched in
          (t, h, cookie, header, same_length, same, ground (arith, cookie, header))
    ]
  ]

  check_tokens-refresh :
      (fresh : String) (r : Request) (cookie header : Option String) (c : Cookie)
      → check_tokens upper units decode is_production fresh r cookie header ≡ allowed c
      → refresh_csrf_cookie upper units decode is_production fresh r ≡ c
  unfolding check_tokens
  check_tokens-refresh fresh r none header c e = cc
  check_tokens-refresh fresh r (some a) none c e = cc
  check_tokens-refresh fresh r (some a) (some h) c e = ground arith

  allowed-refresh :
      (fresh : String) (r : Request) (c : Cookie)
      → can_activate upper units decode is_production fresh r ≡ allowed c
      → refresh_csrf_cookie upper units decode is_production fresh r ≡ c
  unfolding can_activate
  allowed-refresh fresh r c e = elim (Bool-cases (is_mutating upper units decode is_production r)) [
    | inl yes_mutating ↦
        check_tokens-refresh fresh r (extract_cookie_token r) (extract_header_token r) c
          (rw yes_mutating at e)
    | inr safe ↦ ground (arith, safe)
  ]

  refresh-cookie_of :
      (fresh : String) (r : Request)
      → str_eq fresh "" ≡ false
      → let c = refresh_csrf_cookie upper units decode is_production fresh r in
        (str_eq c.value "" ≡ false) × (cookie_of upper units decode is_production c.value ≡ c)
  unfolding refresh_csrf_cookie cookie_of extract_cookie_token
  refresh-cookie_of fresh r n = elim (Option-cases r.cookie) [
    | inl e ↦ (ground (arith, e), ground (arith, e))
    | inr (t, e) ↦ (ground (arith, e), ground (arith, e))
  ]

  refresh-present :
      (fresh v : String) (r : Request)
      → extract_cookie_token r ≡ some v
      → refresh_csrf_cookie upper units decode is_production fresh r
        ≡ cookie_of upper units decode is_production v
  unfolding refresh_csrf_cookie
  refresh-present fresh v r e = ground (arith, e)

  check_tokens_self :
      (fresh v : String) (r : Request)
      → str_eq v "" ≡ false
      → check_tokens upper units decode is_production fresh r (some v) (some v)
        ≡ allowed (refresh_csrf_cookie upper units decode is_production fresh r)
  unfolding check_tokens
  check_tokens_self fresh v r n = rw (n, tokens_match_self v) refl

  extract-echo :
      (method v : String)
      → str_eq v "" ≡ false
      → let echo : Request = record { method = method; cookie = some v; header = single v } in
        (extract_cookie_token echo ≡ some v) × (extract_header_token echo ≡ some v)
  unfolding extract_cookie_token extract_header_token
  extract-echo method v n = (rw n refl, rw n refl)

  echoed :
      (fresh method v : String)
      → str_eq v "" ≡ false
      → can_activate upper units decode is_production fresh
          (record { method = method; cookie = some v; header = single v })
        ≡ allowed (cookie_of upper units decode is_production v)
  unfolding can_activate
  echoed fresh method v n =
      let echo : Request = record { method = method; cookie = some v; header = single v } in
      let (cookie, header) = extract-echo method v n in
      let refreshed = ap (λ c. allowed c) (refresh-present fresh v echo cookie) in
      elim (Bool-cases (is_mutating upper units decode is_production echo)) [
        | inl m ↦ rw (m, cookie, header) (check_tokens_self fresh v echo n ∙ refreshed)
        | inr m ↦ rw m refreshed
      ]

  -- The token of the cookie that any allowed request sets is accepted: a mutating request that has it
  -- as its cookie and echoes it in the header is allowed, and keeps the token, if the random token is
  -- not empty.
  pub can_activate-echo :
      (fresh fresh' : String) (r : Request) (c : Cookie) (method : String)
      → str_eq fresh "" ≡ false
      → can_activate upper units decode is_production fresh r ≡ allowed c
      → let echo : Request = record {
        method = method;
        cookie = some c.value;
        header = single c.value;
      } in
        can_activate upper units decode is_production fresh' echo ≡ allowed c
  can_activate-echo fresh fresh' r c method n e =
      let set = allowed-refresh fresh r c e in
      let (some_text, same) =
        subst
          (λ k.
            (str_eq k.value "" ≡ false) × (cookie_of upper units decode is_production k.value ≡ k))
          set (refresh-cookie_of fresh r n) in
      echoed fresh' method c.value some_text ∙ ap (λ k. allowed k) same
