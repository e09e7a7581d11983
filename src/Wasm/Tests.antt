-- ===== src/Wasm/Tests.antt =====
-- packages/soroban-utils/src/wasm-parser.ts: the results at concrete files.
use soroban_dev_console.Shared.{ℕ, ◌+◌, ◌≡◌, refl, List, [], ◌∷◌, ◌++◌, arith, length}
use soroban_dev_console.Wasm.Leb.{
  read_var_uint, encode, encode_in, read_var_uint-encode, read_var_uint-overlong,
}
use soroban_dev_console.Wasm.Sections.{extract_wasm_custom_section}
use soroban_dev_console.Wasm.Sections.Layout.{
  Section, custom, other, layout_all, content_of, first_payload, wasm_header,
  extract_wasm_custom_section-layout,
}

abbrev bytes : List ℕ
bytes = 7 ∷ 0xe5 ∷ 0x8e ∷ 0x26 ∷ 9 ∷ []

read_var_uint-encode_example :
    read_var_uint bytes 1 ≡ record { value = 624485; next = 1 + length (encode 624485) }
unfolding encode encode_in
read_var_uint-encode_example = read_var_uint-encode bytes 1 624485 (omega arith) (9 ∷ [], refl)

abbrev endless : List ℕ
endless = 0x80 ∷ 0x81 ∷ 0x82 ∷ 0x83 ∷ 0xff ∷ []

read_var_uint-overlong_example : read_var_uint (1 ∷ endless) 1 ≡ record { value = 0; next = 1 + 5 }
read_var_uint-overlong_example =
    read_var_uint-overlong endless (1 ∷ endless) 1 refl (omega arith)
      (omega arith, (omega arith, (omega arith, (omega arith, (omega arith, tt))))) ([], refl)

abbrev meta : List ℕ
meta = 109 ∷ 101 ∷ 116 ∷ 97 ∷ []

abbrev file : List ℕ
file = wasm_header ++ 1 ∷ 1 ∷ 96 ∷ 0 ∷ 7 ∷ 4 ∷ 109 ∷ 101 ∷ 116 ∷ 97 ∷ 5 ∷ 6 ∷ []

abbrev sections : List Section
sections = other 0 (96 ∷ []) ∷ custom meta (5 ∷ 6 ∷ []) ∷ []

extract_wasm_custom_section-layout_example :
    extract_wasm_custom_section (wasm_header ++ layout_all sections) meta
    ≡ first_payload meta sections
unfolding content_of encode encode_in
extract_wasm_custom_section-layout_example =
    extract_wasm_custom_section-layout sections meta (omega arith)
      (omega arith, ((omega arith, omega arith), tt))
