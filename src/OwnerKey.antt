-- ===== src/OwnerKey.antt =====
-- apps/api/src/auth/owner-key.guard.ts: the strength of owner keys and the limit on failed attempts.
-- `trim` is that of JavaScript; the regular expressions are read as tests of characters. Log lines
-- are left out, and the clock is read once for a request.
pub mod Attempts
pub mod Weakness
mod Tests
use Prim.Native.String
use Prim.Native.Char.{Char, code}
use soroban_dev_console.Shared.{
  ℕ, ◌+◌, String, Bool, true, false, not, ◌&&◌, ◌||◌, Option, none, some, List, [], ◌∷◌, ltb, leb,
  ◌==◌, has, str_eq, Dict, lookup, insert, delete, if◌then◌else◌,
}
use soroban_dev_console.Workspaces.{utf16_length}

abbrev pub min_key_length : ℕ
min_key_length = 32

abbrev pub max_key_length : ℕ
max_key_length = 256

abbrev pub rate_limit_window : ℕ
rate_limit_window = 60000

abbrev pub max_attempts : ℕ
max_attempts = 10

abbrev pub within : ℕ → ℕ → Char → Bool
within first last c = leb first (code c) && leb (code c) last

-- `/[A-Z]/`, `/[a-z]/` and `/[0-9]/`
abbrev pub is_upper : Char → Bool
is_upper = within 65 90

abbrev pub is_lower : Char → Bool
is_lower = within 97 122

abbrev pub is_digit : Char → Bool
is_digit = within 48 57

-- `pattern.test` of one character.
unfoldable pub any_char : (Char → Bool) → String → Bool
any_char p String.[] = false
any_char p (String.◌∷◌ c s) = p c || any_char p s

unfoldable pub all_chars : (Char → Bool) → String → Bool
all_chars p String.[] = true
all_chars p (String.◌∷◌ c s) = p c && all_chars p s

-- `\s`, and the line ends that `.` does not take.
abbrev pub is_line_end : Char → Bool
is_line_end c = code c == 10 || (code c == 13) || within 8232 8233 c

abbrev pub is_space : Char → Bool
is_space c =
    within 9 13 c
    || (code c == 32)
    || (code c == 160)
    || (code c == 5760)
    || within 8192 8202 c
    || within 8232 8233 c
    || (code c == 8239)
    || (code c == 8287)
    || (code c == 12288)
    || (code c == 65279)

abbrev pub same_letter : Char → Char → Bool
same_letter c d =
    code c == code d
    || is_upper c && (code c + 32 == code d)
    || is_upper d && (code d + 32 == code c)

-- A text without regard to case.
unfoldable pub same_word : String → String → Bool
same_word String.[] String.[] = true
same_word String.[] (String.◌∷◌ d t) = false
same_word (String.◌∷◌ c s) String.[] = false
same_word (String.◌∷◌ c s) (String.◌∷◌ d t) = same_letter c d && same_word s t

abbrev pub forbidden_words : List String
forbidden_words =
    "password" ∷ "12345678" ∷ "admin" ∷ "test" ∷ "demo" ∷ "key" ∷ "owner" ∷ "secret" ∷ "token"
    ∷ "auth" ∷ []

unfoldable pub is_word_of : String → List String → Bool
is_word_of s [] = false
is_word_of s (w ∷ ws) = same_word s w || is_word_of s ws

-- `/^\s+$/` and `/^(.)\1+$/`
unfoldable pub is_blank : String → Bool
is_blank String.[] = false
is_blank (String.◌∷◌ c s) = is_space c && all_chars is_space s

unfoldable pub is_repeated : String → Bool
is_repeated String.[] = false
is_repeated (String.◌∷◌ c String.[]) = false
is_repeated (String.◌∷◌ c (String.◌∷◌ d s)) =
    not (is_line_end c) && all_chars (λ e. code e == code c) (String.◌∷◌ d s)

unfoldable pub is_forbidden : String → Bool
is_forbidden s = is_word_of s forbidden_words || is_blank s || is_repeated s

pub record Attempt : Type 0 where
  pub count : ℕ
  pub window_start : ℕ

-- The header `x-owner-key`: absent, several values, or a text.
pub data Header : Type 0 where
  absent several : Header
  one : String → Header

-- The key of the request, or the exception.
pub data Answer : Type 0 where
  allowed : String → Answer
  too_many missing weak_key : Answer

-- `Date.now() - record.windowStart > RATE_LIMIT_WINDOW`
abbrev pub is_over : ℕ → Attempt → Bool
is_over now a = ltb (a.window_start + rate_limit_window) now

unfoldable pub is_rate_limited : ℕ → String → Dict Attempt → Bool × Dict Attempt
is_rate_limited now ip store = elim (lookup ip store) [
  | none ↦ (false, store)
  | some a ↦ if is_over now a then (false, delete ip store) else (leb max_attempts a.count, store)
]

unfoldable pub record_attempt : ℕ → String → Dict Attempt → Dict Attempt
record_attempt now ip store = elim (lookup ip store) [
  | none ↦ insert ip (record { count = 1; window_start = now }) store
  | some a ↦
      if is_over now a
      then insert ip (record { count = 1; window_start = now }) store
      else insert ip (record a { count = a.count + 1 }) store
]

module _ (trim : String → String) where
  -- The checks of the header: the key, or the exception.
  unfoldable pub check_key : Header → Answer
  check_key absent = missing
  check_key several = missing
  check_key (one key) =
      let trimmed = trim key in
      if str_eq key ""
      then missing
      else if ltb (utf16_length trimmed) min_key_length
      then weak_key
      else if ltb max_key_length (utf16_length trimmed)
      then weak_key
      else if not (any_char is_upper trimmed)
      then weak_key
      else if not (any_char is_lower trimmed)
      then weak_key
      else if not (any_char is_digit trimmed)
      then weak_key
      else if is_forbidden trimmed
      then weak_key
      else allowed trimmed

  unfoldable pub can_activate : ℕ → String → Header → Dict Attempt → Answer × Dict Attempt
  can_activate now ip header store =
      let (limited, kept) = is_rate_limited now ip store in
      if limited then (too_many, kept) else elim (check_key header) [
        | allowed key ↦ (allowed key, kept)
        | answer ↦ (answer, record_attempt now ip kept)
      ]
