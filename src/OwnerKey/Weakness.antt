-- ===== src/OwnerKey/Weakness.antt =====
-- apps/api/src/auth/owner-key.guard.ts: what the list of forbidden patterns refuses.
use Prim.Native.Char.{Char, code}
use soroban_dev_console.Shared.{
  ℕ, ◌≤◌, ◌<◌, ◌≡◌, refl, String, true, false, List, [], ◌∷◌, ◌==◌, arith, All, Bool-cases, inl,
  inr,
}
use soroban_dev_console.Workspaces.{utf16_length}
use soroban_dev_console.OwnerKey.{
  any_char, all_chars, within, is_upper, is_lower, is_space, same_word, forbidden_words, is_word_of,
  is_blank, is_repeated, is_forbidden, min_key_length,
}

same_word-utf16_length : (s w : String) → same_word s w ≡ true → utf16_length s ≡ utf16_length w
unfolding same_word utf16_length
same_word-utf16_length String.[] String.[] h = refl
same_word-utf16_length String.[] (String.◌∷◌ d t) h = absurd (ground (arith, h))
same_word-utf16_length (String.◌∷◌ c s) String.[] h = absurd (ground (arith, h))
same_word-utf16_length (String.◌∷◌ c s) (String.◌∷◌ d t) h =
    ground (arith, h, same_word-utf16_length s t)

is_word_of-long :
    (s : String) (ws : List String)
    → All (λ w. utf16_length w < min_key_length) ws
    → min_key_length ≤ utf16_length s
    → is_word_of s ws ≡ false
unfolding is_word_of
is_word_of-long s [] short long = refl
is_word_of-long s (w ∷ ws) (short, rest) long = elim (Bool-cases (same_word s w)) [
  | inl same ↦ absurd (omega (arith, short, long, same_word-utf16_length s w same))
  | inr other ↦ rw other (is_word_of-long s ws rest long)
]

upper_visible : (c : Char) → is_upper c ≡ true → is_space c ≡ false
upper_visible c h = ground (arith, h)

is_blank-false : (s : String) → any_char is_upper s ≡ true → all_chars is_space s ≡ false
unfolding any_char all_chars
is_blank-false String.[] h = absurd (ground (arith, h))
is_blank-false (String.◌∷◌ c s) h = elim (Bool-cases (is_upper c)) [
  | inl upper ↦ let visible = upper_visible c upper in rw visible refl
  | inr other ↦ ground (arith, h, other, is_blank-false s)
]

within-all :
    (a b : ℕ) (c : Char) (s : String)
    → any_char (within a b) s ≡ true
    → all_chars (λ e. code e == code c) s ≡ true
    → within a b c ≡ true
unfolding any_char all_chars
within-all a b c String.[] h k = absurd (ground (arith, h))
within-all a b c (String.◌∷◌ d s) h k = ground (arith, h, k, within-all a b c s)

short_words : All (λ w. utf16_length w < min_key_length) forbidden_words
unfolding utf16_length
short_words = (
  omega arith,
  (
    omega arith,
    (
      omega arith,
      (
        omega arith,
        (
          omega arith,
          (omega arith, (omega arith, (omega arith, (omega arith, (omega arith, tt))))),
        ),
      ),
    ),
  ),
)

is_blank_upper : (s : String) → any_char is_upper s ≡ true → is_blank s ≡ false
unfolding is_blank any_char all_chars
is_blank_upper String.[] h = refl
is_blank_upper (String.◌∷◌ c s) h = is_blank-false (String.◌∷◌ c s) h

is_repeated_cased :
    (s : String) → any_char is_upper s ≡ true → any_char is_lower s ≡ true → is_repeated s ≡ false
unfolding is_repeated any_char all_chars
is_repeated_cased String.[] h k = refl
is_repeated_cased (String.◌∷◌ c String.[]) h k = refl
is_repeated_cased (String.◌∷◌ c (String.◌∷◌ d s)) h k =
    elim (Bool-cases (all_chars (λ e. code e == code c) (String.◌∷◌ d s))) [
      | inl all_same ↦
          let whole : all_chars (λ e. code e == code c) (String.◌∷◌ c (String.◌∷◌ d s)) ≡ true =
            ground (arith, all_same) in
          let upper = within-all 65 90 c (String.◌∷◌ c (String.◌∷◌ d s)) h whole in
          let lower = within-all 97 122 c (String.◌∷◌ c (String.◌∷◌ d s)) k whole in
          absurd (ground (arith, upper, lower))
      | inr differ ↦ ground (arith, differ)
    ]

-- The forbidden patterns refuse no key that the checks before them let through: none of them takes
-- a text of 32 units or more with an upper-case and a lower-case letter.
pub is_forbidden_never :
    (s : String)
    → min_key_length ≤ utf16_length s
    → any_char is_upper s ≡ true
    → any_char is_lower s ≡ true
    → is_forbidden s ≡ false
unfolding is_forbidden
is_forbidden_never s long upper lower = ground (
  arith,
  is_word_of-long s forbidden_words short_words long,
  is_blank_upper s upper,
  is_repeated_cased s upper lower,
)
