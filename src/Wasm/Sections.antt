-- ===== src/Wasm/Sections.antt =====
-- packages/soroban-utils/src/wasm-parser.ts, `extractWasmCustomSection`, and the magic header of
-- wasm-validation.ts. A name is the list of its character codes.
pub mod Found
pub mod Layout
use soroban_dev_console.Shared.{
  ℕ, zero, suc, ◌+◌, ◌-◌, ◌<◌, ◌≤◌, Bool, true, false, ◌&&◌, ◌||◌, Option, none, some, List, [],
  ◌∷◌, if◌then◌else◌, leb, ltb, ◌==◌, length, get_elem?, drop, take,
}
use soroban_dev_console.Wasm.Leb.{Decoded, read_var_uint}

abbrev pub max_sections : ℕ
max_sections = 10000

abbrev pub max_name_length : ℕ
max_name_length = 1024

unfoldable pub same_codes : List ℕ → List ℕ → Bool
same_codes [] [] = true
same_codes (x ∷ xs) (y ∷ ys) = (x == y) && same_codes xs ys
same_codes _ _ = false

unfoldable pub is_valid_wasm_header : List ℕ → Bool
unfolding same_codes
is_valid_wasm_header bytes = same_codes (take 4 bytes) (0x00 ∷ 0x61 ∷ 0x73 ∷ 0x6d ∷ [])

-- `bytes.slice(from, to)`
abbrev pub slice : ℕ → ℕ → List ℕ → List ℕ
slice from to bytes = take (to - from) (drop from bytes)

-- The payload of the custom section whose content is `start` to `section_end`, if it has this name.
unfoldable pub custom_payload : List ℕ → List ℕ → ℕ → ℕ → Option (List ℕ)
custom_payload bytes target start section_end =
    let d = read_var_uint bytes start in
    let name_end = d.next + d.value in
    if leb d.value max_name_length && leb name_end section_end && leb name_end (length bytes)
    then (if same_codes (take d.value (drop d.next bytes)) target
        then some (slice name_end section_end bytes)
        else none)
    else none

-- The loop, with the sections that may still be visited.
unfoldable pub walk : ℕ → List ℕ → List ℕ → ℕ → Option (List ℕ)
walk zero bytes target offset = none
walk (suc left) bytes target offset = elim (get_elem? bytes offset) [
  | none ↦ none
  | some section_id ↦
      let d = read_var_uint bytes (offset + 1) in
      let section_end = d.next + d.value in
      let rest = walk left bytes target section_end in
      if ltb (length bytes) d.value || ltb (length bytes) section_end
      then none
      else if section_id == 0
      then elim (custom_payload bytes target d.next section_end) [
        | none ↦ rest
        | some payload ↦ some payload
      ]
      else rest
]

unfoldable pub extract_wasm_custom_section : List ℕ → List ℕ → Option (List ℕ)
extract_wasm_custom_section bytes target =
    if ltb (length bytes) 8
    then none
    else if is_valid_wasm_header bytes
    then walk max_sections bytes target 8
    else none
