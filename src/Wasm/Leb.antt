-- ===== src/Wasm/Leb.antt =====
-- packages/soroban-utils/src/wasm-parser.ts, `readVarUint`: unsigned LEB128 of at most five bytes.
use Prim.Native.Nat.{min}
use native.Mathlib.Numerals.{add-one}
use native.Mathlib.Nat.{pow-suc}
use native.Mathlib.Decide.{dec_lt}
use mathlib.Core.Path.{subst}
use soroban_dev_console.Shared.{
  ℕ, zero, suc, ◌+◌, ◌*◌, ◌/◌, ◌%◌, ◌^◌, ◌<◌, ◌≤◌, ◌≡◌, ap, ◌∙◌, none, some, List, [], ◌∷◌, ◌++◌,
  arith, if◌then◌else◌, ltb, Option-cases, length, get_elem?, drop, All, inl, inr,
}

abbrev pub max_bytes : ℕ
max_bytes = 5

pub record Decoded : Type 0 where
  pub value : ℕ
  pub next : ℕ

-- The loop, with the rounds that are left; `weight` is 2 to the power of `shift`. The bits that a
-- round sets are above those of `result`, so `|=` adds; `<<` and `>>> 0` keep the low 32 bits.
unfoldable pub read_from : ℕ → List ℕ → ℕ → ℕ → ℕ → Decoded
read_from zero bytes pos weight result = record { value = 0; next = min pos (length bytes) }
read_from (suc left) bytes pos weight result = elim (get_elem? bytes pos) [
  | none ↦ record { value = 0; next = min pos (length bytes) }
  | some byte ↦
      let result' = (result + byte % 128 * weight % 2 ^ 32) % 2 ^ 32 in
      let more = read_from left bytes (pos + 1) (weight * 128) result' in
      if ltb (byte % 256) 128 then record { value = result'; next = pos + 1 } else more
]

unfoldable pub read_var_uint : List ℕ → ℕ → Decoded
read_var_uint bytes offset = read_from max_bytes bytes offset 1 0

pub get_elem?-inside {ℓ} :
    {A : Type ℓ} (xs : List A) (i : ℕ) (x : A) → get_elem? xs i ≡ some x → i < length xs
get_elem?-inside [] i x e = cc
get_elem?-inside (y ∷ xs) zero x e = omega arith
get_elem?-inside (y ∷ xs) (suc i) x e = omega (arith, get_elem?-inside xs i x e)

-- A read stays inside the array, makes at most `left` steps, and gives a 32-bit number.
read_from-bounds :
    (left : ℕ) (bytes : List ℕ) (pos weight result : ℕ)
    → pos ≤ length bytes
    → let d = read_from left bytes pos weight result in
      (pos ≤ d.next) × (d.next ≤ length bytes) × (d.next ≤ pos + left) × (d.value < 2 ^ 32)
unfolding read_from
read_from-bounds zero bytes pos weight result h = omega arith
read_from-bounds (suc left) bytes pos weight result h = elim (Option-cases (get_elem? bytes pos)) [
  | inl e ↦ ground (arith, e)
  | inr (byte, e) ↦
      let inside = get_elem?-inside bytes pos byte e in
      let result' = (result + byte % 128 * weight % 2 ^ 32) % 2 ^ 32 in
      ground (arith, e, inside, read_from-bounds left bytes (pos + 1) (weight * 128) result')
]

-- From an offset inside the array or at its end, `readVarUint` moves forward by at most five bytes,
-- never past the end, and returns a number below 2 to the power of 32.
pub read_var_uint-bounds :
    (bytes : List ℕ) (offset : ℕ)
    → offset ≤ length bytes
    → let d = read_var_uint bytes offset in
      (offset ≤ d.next) × (d.next ≤ length bytes) × (d.next ≤ offset + 5) × (d.value < 2 ^ 32)
unfolding read_var_uint
read_var_uint-bounds bytes offset h = read_from-bounds 5 bytes offset 1 0 h

-- The LEB128 encoding of a number, in at most the given number of bytes.
unfoldable pub encode_in : ℕ → ℕ → List ℕ
encode_in zero n = []
encode_in (suc left) n =
    let more = (n % 128 + 128) ∷ encode_in left (n / 128) in if ltb n 128 then n ∷ [] else more

unfoldable pub encode : ℕ → List ℕ
encode n = encode_in max_bytes n

-- The bytes from `pos` on are `xs`, and then others.
abbrev pub At : List ℕ → ℕ → List ℕ → Type 0
At bytes pos xs = (rest : List ℕ) × (drop pos bytes ≡ xs ++ rest)

pub drop-cons {ℓ} :
    {A : Type ℓ} (pos : ℕ) (bytes xs : List A) (x : A)
    → drop pos bytes ≡ x ∷ xs
    → (get_elem? bytes pos ≡ some x) × (drop (suc pos) bytes ≡ xs)
drop-cons zero [] xs x e = cc
drop-cons zero (b ∷ bytes) xs x e = (ground arith, ground arith)
drop-cons (suc pos) [] xs x e = cc
drop-cons (suc pos) (b ∷ bytes) xs x e = drop-cons pos bytes xs x e

pub At-head :
    (bytes : List ℕ) (pos x : ℕ) (xs : List ℕ)
    → At bytes pos (x ∷ xs)
    → (get_elem? bytes pos ≡ some x) × At bytes (pos + 1) xs
At-head bytes pos x xs (rest, e) =
    let (here, after) = drop-cons pos bytes (xs ++ rest) x e in (here, (rest, rw add-one after))

digits-weight : (n weight : ℕ) → n * weight ≡ n % 128 * weight + n / 128 * (weight * 128)
digits-weight n weight =
    let e : n ≡ n / 128 * 128 + n % 128 = omega arith in omega (arith, ap (λ t. t * weight) e)

-- The number that one byte leaves in `result`, where no bit is lost.
no_overflow :
    (result d weight : ℕ)
    → result + d * weight < 2 ^ 32
    → (result + d * weight % 2 ^ 32) % 2 ^ 32 ≡ result + d * weight
no_overflow result d weight h = omega arith

read_from-last :
    (left : ℕ) (bytes : List ℕ) (pos weight result n : ℕ)
    → n < 128
    → result + n * weight < 2 ^ 32
    → get_elem? bytes pos ≡ some n
    → read_from (suc left) bytes pos weight result
      ≡ record { value = result + n * weight; next = pos + 1 }
unfolding read_from
read_from-last left bytes pos weight result n small fits e =
    let low : n % 128 ≡ n = omega arith in ground (arith, e, low, no_overflow result n weight fits)

read_from-more :
    (left : ℕ) (bytes : List ℕ) (pos weight result n : ℕ)
    → result + n % 128 * weight < 2 ^ 32
    → get_elem? bytes pos ≡ some (n % 128 + 128)
    → read_from (suc left) bytes pos weight result
      ≡ read_from left bytes (pos + 1) (weight * 128) (result + n % 128 * weight)
unfolding read_from
read_from-more left bytes pos weight result n fits e =
    let low : (n % 128 + 128) % 128 ≡ n % 128 = omega arith in
    let kept = no_overflow result (n % 128) weight fits in ground (arith, e, low, kept)

encode_in-last : (left n : ℕ) → n < 128 → encode_in (suc left) n ≡ n ∷ []
unfolding encode_in
encode_in-last left n h = ground arith

encode_in-more :
    (left n : ℕ) → 128 ≤ n → encode_in (suc left) n ≡ (n % 128 + 128) ∷ encode_in left (n / 128)
unfolding encode_in
encode_in-more left n h = ground arith

fewer_digits : (left n : ℕ) → 128 ≤ n → n < 128 ^ suc left → (0 < left) × (n / 128 < 128 ^ left)
fewer_digits zero n big small = absurd (omega (arith, pow-suc 128 0))
fewer_digits (suc left) n big small = (omega arith, omega (arith, pow-suc 128 (suc left)))

read_from-encode :
    (left : ℕ) (bytes : List ℕ) (pos weight result n : ℕ)
    → 0 < left
    → n < 128 ^ left
    → result + n * weight < 2 ^ 32
    → At bytes pos (encode_in left n)
    → read_from left bytes pos weight result
      ≡ record { value = result + n * weight; next = pos + length (encode_in left n) }
read_from-encode zero bytes pos weight result n pos_left small fits h = absurd (omega arith)
read_from-encode (suc left) bytes pos weight result n pos_left small fits h = elim (dec_lt n 128) [
  | yes is_last ↦
      let e = encode_in-last left n is_last in
      rw e (
        read_from-last left bytes pos weight result n is_last fits
          (At-head bytes pos n [] (subst (At bytes pos) e h)).0)
  | no isnt_last ↦
      let big : 128 ≤ n = omega arith in
      let e = encode_in-more left n big in
      let (here, after) =
        At-head bytes pos (n % 128 + 128) (encode_in left (n / 128)) (subst (At bytes pos) e h) in
      let (room, fewer) = fewer_digits left n big small in
      let parts = digits-weight n weight in
      let later =
        read_from-encode left bytes (pos + 1) (weight * 128) (result + n % 128 * weight) (n / 128)
          room fewer (omega arith) after in
      rw e (
        read_from-more left bytes pos weight result n (omega arith) here
        ∙ later
        ∙ ground (arith, parts))
]

-- A number below 2 to the power of 32 that stands encoded at an offset is read back, and the next
-- offset is that behind its encoding.
pub read_var_uint-encode :
    (bytes : List ℕ) (offset n : ℕ)
    → n < 2 ^ 32
    → At bytes offset (encode n)
    → read_var_uint bytes offset ≡ record { value = n; next = offset + length (encode n) }
unfolding read_var_uint encode
read_var_uint-encode bytes offset n small h =
    read_from-encode 5 bytes offset 1 0 n (omega arith) (omega arith) (omega arith) h ∙ ground arith

read_from-continue :
    (left : ℕ) (bytes : List ℕ) (pos weight result byte : ℕ)
    → 128 ≤ byte
    → byte < 256
    → get_elem? bytes pos ≡ some byte
    → read_from (suc left) bytes pos weight result
      ≡ read_from left bytes
          (pos + 1)
          (weight * 128)
          ((result + byte % 128 * weight % 2 ^ 32) % 2 ^ 32)
unfolding read_from
read_from-continue left bytes pos weight result byte big small e = ground (arith, e)

-- A byte whose top bit says that more follows.
abbrev pub Continues : ℕ → Type 0
Continues x = (128 ≤ x) × (x < 256)

read_from-overlong :
    (xs bytes : List ℕ) (pos weight result : ℕ)
    → pos ≤ length bytes
    → All Continues xs
    → At bytes pos xs
    → read_from (length xs) bytes pos weight result ≡ record { value = 0; next = pos + length xs }
read_from-overlong [] bytes pos weight result inside c h = unfold read_from in ground arith
read_from-overlong (x ∷ xs) bytes pos weight result inside ((big, small), c) h =
    let (here, after) = At-head bytes pos x xs h in
    read_from-continue (length xs) bytes pos weight result x big small here
    ∙ read_from-overlong xs bytes (pos + 1) (weight * 128) _
        (omega (arith, get_elem?-inside bytes pos x here)) c after
    ∙ ground arith

-- Five bytes inside the array that all say that more follows are read as the number 0, five bytes
-- long.
pub read_var_uint-overlong :
    (xs bytes : List ℕ) (offset : ℕ)
    → length xs ≡ 5
    → offset ≤ length bytes
    → All Continues xs
    → At bytes offset xs
    → read_var_uint bytes offset ≡ record { value = 0; next = offset + 5 }
unfolding read_var_uint
read_var_uint-overlong xs bytes offset five inside c h =
    subst (λ k. read_from k bytes offset 1 0 ≡ record { value = 0; next = offset + k }) five
      (read_from-overlong xs bytes offset 1 0 inside c h)
