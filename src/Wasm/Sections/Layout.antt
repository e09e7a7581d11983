-- ===== src/Wasm/Sections/Layout.antt =====
-- packages/soroban-utils/src/wasm-parser.ts, `extractWasmCustomSection`, on a file that is laid out
-- as the WebAssembly format says: the first custom section of the name is the one that is found.
use mathlib.Core.List.{append_assoc}
use native.Mathlib.Numerals.{add-one}
use soroban_dev_console.Shared.{
  ℕ, zero, suc, ◌+◌, ◌-◌, ◌^◌, ◌<◌, ◌≤◌, ◌≡◌, refl, ap, ◌∙◌, Option, none, some, List, [], ◌∷◌,
  ◌++◌, arith, All, if◌then◌else◌, ◌==◌, length, length-append, length-drop, get_elem?, drop, take,
  drop-add, drop-append, take-append,
}
use soroban_dev_console.Wasm.Leb.{read_var_uint, encode, drop-cons, read_var_uint-encode}
use soroban_dev_console.Wasm.Sections.{
  same_codes, is_valid_wasm_header, slice, custom_payload, walk, extract_wasm_custom_section,
  max_sections, max_name_length,
}

-- A section of a WebAssembly file: a custom one with its name and payload, or one with another id.
pub data Section : Type 0 where
  custom : List ℕ → List ℕ → Section
  other : ℕ → List ℕ → Section

abbrev pub id_of : Section → ℕ
id_of (custom name payload) = 0
id_of (other id content) = suc id

unfoldable pub content_of : Section → List ℕ
content_of (custom name payload) = encode (length name) ++ (name ++ payload)
content_of (other id content) = content

pub layout : Section → List ℕ
layout s = id_of s ∷ (encode (length (content_of s)) ++ content_of s)

pub layout_all : List Section → List ℕ
layout_all [] = []
layout_all (s ∷ ss) = layout s ++ layout_all ss

-- The payload of the first custom section of the name.
pub first_payload : List ℕ → List Section → Option (List ℕ)
first_payload target [] = none
first_payload target (custom name payload ∷ ss) =
    if same_codes name target then some payload else first_payload target ss
first_payload target (other id content ∷ ss) = first_payload target ss

-- The content is of a size that fits the format, and a name is of a length that the parser reads.
abbrev pub Fits : Section → Type 0
Fits (custom name payload) =
    (length (content_of (custom name payload)) < 2 ^ 32) × (length name ≤ max_name_length)
Fits (other id content) = length content < 2 ^ 32

-- Behind the bytes `xs` at `pos` come the bytes `ys`.
drop-part :
    (bytes : List ℕ) (pos : ℕ) (xs ys : List ℕ)
    → drop pos bytes ≡ xs ++ ys
    → drop (pos + length xs) bytes ≡ ys
drop-part bytes pos xs ys e =
    drop-add pos (length xs) bytes ∙ ap (drop (length xs)) e ∙ drop-append xs ys

-- They end where the file does.
part_fits :
    (bytes : List ℕ) (pos : ℕ) (xs : List ℕ)
    → pos ≤ length bytes
    → drop pos bytes ≡ xs
    → pos + length xs ≡ length bytes
part_fits bytes pos xs inside e = omega (arith, length-drop pos bytes, ap length e)

slice-part :
    (bytes : List ℕ) (from : ℕ) (xs ys : List ℕ)
    → drop from bytes ≡ xs ++ ys
    → slice from (from + length xs) bytes ≡ xs
slice-part bytes from xs ys e =
    let n : from + length xs - from ≡ length xs = omega arith in rw (n, e) (take-append xs ys)

custom_payload-layout :
    (bytes target : List ℕ) (start : ℕ) (name payload rest : List ℕ)
    → start ≤ length bytes
    → length name ≤ max_name_length
    → drop start bytes ≡ (encode (length name) ++ (name ++ payload)) ++ rest
    → custom_payload bytes target start (start + length (encode (length name) ++ (name ++ payload)))
      ≡ (if same_codes name target then some payload else none)
unfolding custom_payload
custom_payload-layout bytes target start name payload rest inside short e =
    let code = encode (length name) in
    let at_name : drop start bytes ≡ code ++ ((name ++ payload) ++ rest) =
      e ∙ append_assoc code (name ++ payload) rest in
    let name_start = start + length code in
    let behind_code = drop-part bytes start code ((name ++ payload) ++ rest) at_name in
    let at_text : drop name_start bytes ≡ name ++ (payload ++ rest) =
      behind_code ∙ append_assoc name payload rest in
    let behind_name = drop-part bytes name_start name (payload ++ rest) at_text in
    let d : read_var_uint bytes start ≡ record { value = length name; next = name_start } =
      read_var_uint-encode bytes start (length name) (omega arith)
        ((name ++ payload) ++ rest, at_name) in
    let total : length (code ++ (name ++ payload)) ≡ length code + (length name + length payload) =
      omega (arith, length-append code (name ++ payload), length-append name payload) in
    let text_is : take (length name) (drop name_start bytes) ≡ name =
      rw at_text (take-append name (payload ++ rest)) in
    let to : start + length (code ++ (name ++ payload))
        ≡ name_start + length name + length payload =
      omega arith in
    let payload_is : slice (name_start + length name) (name_start + length name + length payload)
          bytes
        ≡ payload =
      slice-part bytes (name_start + length name) payload rest behind_name in
    let whole = part_fits bytes start ((code ++ (name ++ payload)) ++ rest) inside e in
    let bound : name_start + length name + length payload ≤ length bytes =
      omega (arith, length-append (code ++ (name ++ payload)) rest) in
    rw (custom_payload, d, to, text_is, payload_is) (ground arith)

-- One round of the loop at a section that fits.
module _ (left : ℕ) (bytes target : List ℕ) (offset : ℕ) (s : Section) (rest : List ℕ)
    (inside : offset ≤ length bytes) (size : length (content_of s) < 2 ^ 32)
    (e : drop offset bytes ≡ layout s ++ rest) where
  abbrev content_at : ℕ
  content_at = offset + 1 + length (encode (length (content_of s)))

  abbrev section_end : ℕ
  section_end = content_at + length (content_of s)

  head_at :
      (get_elem? bytes offset ≡ some (id_of s))
      × (drop (suc offset) bytes ≡ (encode (length (content_of s)) ++ content_of s) ++ rest)
  unfolding layout
  head_at =
      drop-cons offset bytes ((encode (length (content_of s)) ++ content_of s) ++ rest) (id_of s) e

  at_tail : drop (offset + 1) bytes ≡ encode (length (content_of s)) ++ (content_of s ++ rest)
  at_tail =
      rw add-one (head_at.1 ∙ append_assoc (encode (length (content_of s))) (content_of s) rest)

  size_at :
      read_var_uint bytes (offset + 1) ≡ record { value = length (content_of s); next = content_at }
  size_at =
      read_var_uint-encode bytes (offset + 1) (length (content_of s)) size
        (content_of s ++ rest, at_tail)

  at_content : drop content_at bytes ≡ content_of s ++ rest
  at_content =
      drop-part bytes (offset + 1) (encode (length (content_of s))) (content_of s ++ rest) at_tail

  at_rest : drop section_end bytes ≡ rest
  at_rest = drop-part bytes content_at (content_of s) rest at_content

  length-layout :
      length (layout s ++ rest)
      ≡ 1 + length (encode (length (content_of s))) + length (content_of s) + length rest
  unfolding layout
  length-layout = omega (
    arith,
    length-append (encode (length (content_of s)) ++ content_of s) rest,
    length-append (encode (length (content_of s))) (content_of s),
  )

  content_inside : content_at ≤ length bytes
  content_inside = omega (arith, part_fits bytes offset (layout s ++ rest) inside e, length-layout)

  end_inside : section_end ≤ length bytes
  end_inside = omega (arith, part_fits bytes offset (layout s ++ rest) inside e, length-layout)

  walk_round : walk (suc left) bytes target offset ≡ (
      if id_of s == 0
      then elim (custom_payload bytes target content_at section_end) [
        | none ↦ walk left bytes target section_end
        | some payload ↦ some payload
      ]
      else walk left bytes target section_end)
  unfolding walk
  walk_round = ground (arith, head_at.0, size_at, end_inside)

drop_end {ℓ} : {A : Type ℓ} (n : ℕ) (xs : List A) → drop n xs ≡ [] → get_elem? xs n ≡ none
drop_end zero [] e = refl
drop_end zero (x ∷ xs) e = cc
drop_end (suc n) [] e = refl
drop_end (suc n) (x ∷ xs) e = drop_end n xs e

Fits-size : (s : Section) → Fits s → length (content_of s) < 2 ^ 32
unfolding content_of
Fits-size (custom name payload) h = h.0
Fits-size (other id content) h = h

custom_round :
    (left : ℕ) (bytes target : List ℕ) (offset : ℕ) (name payload rest : List ℕ)
    (inside : offset ≤ length bytes) (size : length (content_of (custom name payload)) < 2 ^ 32)
    → length name ≤ max_name_length
    → (e : drop offset bytes ≡ layout (custom name payload) ++ rest)
    → custom_payload bytes target
        (content_at left bytes target offset (custom name payload) rest inside size e)
        (section_end left bytes target offset (custom name payload) rest inside size e)
      ≡ (if same_codes name target then some payload else none)
custom_round left bytes target offset name payload rest inside size short e =
    let s : Section = custom name payload in
    unfold content_of in
    custom_payload-layout bytes target (content_at left bytes target offset s rest inside size e)
      name payload rest (content_inside left bytes target offset s rest inside size e) short
      (at_content left bytes target offset s rest inside size e)

walk-layout :
    (left : ℕ) (ss : List Section) (bytes target : List ℕ) (offset : ℕ)
    → length ss ≤ left
    → offset ≤ length bytes
    → All Fits ss
    → drop offset bytes ≡ layout_all ss
    → walk left bytes target offset ≡ first_payload target ss
unfolding layout_all first_payload
walk-layout zero [] bytes target offset n inside f e = unfold walk in refl
walk-layout zero (s ∷ ss) bytes target offset n inside f e = absurd (omega arith)
walk-layout (suc left) [] bytes target offset n inside f e =
    unfold walk in ground (arith, drop_end offset bytes e)
walk-layout (suc left) (custom name payload ∷ ss) bytes target offset n inside (h, f) e =
    let s : Section = custom name payload in
    let size = Fits-size s h in
    let rest = layout_all ss in
    let later =
      walk-layout left ss bytes target (section_end left bytes target offset s rest inside size e)
        (omega arith) (end_inside left bytes target offset s rest inside size e) f
        (at_rest left bytes target offset s rest inside size e) in
    walk_round left bytes target offset s rest inside size e
    ∙ ground
        (arith, custom_round left bytes target offset name payload rest inside size h.1 e, later)
walk-layout (suc left) (other id content ∷ ss) bytes target offset n inside (h, f) e =
    let s : Section = other id content in
    let size = Fits-size s h in
    let rest = layout_all ss in
    let later =
      walk-layout left ss bytes target (section_end left bytes target offset s rest inside size e)
        (omega arith) (end_inside left bytes target offset s rest inside size e) f
        (at_rest left bytes target offset s rest inside size e) in
    walk_round left bytes target offset s rest inside size e ∙ ground (arith, later)

abbrev pub wasm_header : List ℕ
wasm_header = 0x00 ∷ 0x61 ∷ 0x73 ∷ 0x6d ∷ 0x01 ∷ 0x00 ∷ 0x00 ∷ 0x00 ∷ []

-- In a file that is the magic header, the version and then at most 10,000 sections, each with a
-- content of less than 2 to the power of 32 bytes and, if custom, a name of at most 1,024, the
-- extraction for a name finds the payload of the first custom section of that name, and nothing if
-- there is none.
pub extract_wasm_custom_section-layout :
    (ss : List Section) (target : List ℕ)
    → length ss ≤ max_sections
    → All Fits ss
    → extract_wasm_custom_section (wasm_header ++ layout_all ss) target ≡ first_payload target ss
unfolding extract_wasm_custom_section is_valid_wasm_header
extract_wasm_custom_section-layout ss target n f = ground (
  arith,
  walk-layout max_sections ss (wasm_header ++ layout_all ss) target 8 n (omega arith) f refl,
)
