-- ===== src/Wasm/Sections/Found.antt =====
-- packages/soroban-utils/src/wasm-parser.ts, `extractWasmCustomSection`: what it returns lies in the
-- file, behind the name that was asked for.
use soroban_dev_console.Shared.{
  ℕ, zero, suc, ◌+◌, ◌≤◌, ◌≡◌, refl, true, some, List, [], ◌∷◌, inl, inr, arith, Option-cases,
  length, drop, take,
}
use soroban_dev_console.Wasm.Leb.{read_var_uint}
use soroban_dev_console.Wasm.Sections.{
  same_codes, slice, custom_payload, walk, extract_wasm_custom_section,
}

pub same_codes-eq : (xs ys : List ℕ) → same_codes xs ys ≡ true → xs ≡ ys
unfolding same_codes
same_codes-eq [] [] h = refl
same_codes-eq (x ∷ xs) (y ∷ ys) h = ground (arith, same_codes-eq xs ys)
same_codes-eq [] (y ∷ ys) h = cc
same_codes-eq (x ∷ xs) [] h = cc

-- The payload is the part of the file between two offsets, and the bytes before it are the name.
abbrev pub IsPayloadIn : List ℕ → List ℕ → List ℕ → Type 0
IsPayloadIn bytes target payload =
    (name_start name_length to : ℕ) × (name_start + name_length ≤ to)
    × (to ≤ length bytes)
    × (take name_length (drop name_start bytes) ≡ target)
    × (payload ≡ slice (name_start + name_length) to bytes)

custom_payload-in :
    (bytes target : List ℕ) (start section_end : ℕ) (payload : List ℕ)
    → section_end ≤ length bytes
    → custom_payload bytes target start section_end ≡ some payload
    → IsPayloadIn bytes target payload
unfolding custom_payload
custom_payload-in bytes target start section_end payload h e =
    let d = read_var_uint bytes start in
    (
      d.next,
      d.value,
      section_end,
      ground arith,
      h,
      ground (arith, same_codes-eq (take d.value (drop d.next bytes)) target),
      ground arith,
    )

walk-in :
    (left : ℕ) (bytes target : List ℕ) (offset : ℕ) (payload : List ℕ)
    → walk left bytes target offset ≡ some payload
    → IsPayloadIn bytes target payload
unfolding walk
walk-in zero bytes target offset payload e = cc
walk-in (suc left) bytes target offset payload e =
    let d = read_var_uint bytes (offset + 1) in
    let section_end = d.next + d.value in
    elim (Option-cases (custom_payload bytes target d.next section_end)) [
      | inl missing ↦ ground (arith, missing, walk-in left bytes target section_end payload)
      | inr (p, found) ↦ ground (
        arith,
        found,
        walk-in left bytes target section_end payload,
        custom_payload-in bytes target d.next section_end payload,
      )
    ]

-- What is returned for a name is a part of the file that stands directly behind bytes that spell
-- the name, and ends within the file.
pub extract_wasm_custom_section-in :
    (bytes target payload : List ℕ)
    → extract_wasm_custom_section bytes target ≡ some payload
    → IsPayloadIn bytes target payload
unfolding extract_wasm_custom_section
extract_wasm_custom_section-in bytes target payload e =
    walk-in 10000 bytes target 8 payload (ground arith)
