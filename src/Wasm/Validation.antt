-- ===== src/Wasm/Validation.antt =====
-- packages/soroban-utils/src/wasm-validation.ts, `validateWasmBinary`, and the names and signatures of
-- functions in wasm-parser.ts. `lower` stands for `toLowerCase`; an error is a constructor.
use Prim.Native.String
use soroban_dev_console.Shared.{
  ℕ, ◌≡◌, ◌≢◌, refl, String, Bool, false, Option, none, some, List, [], ◌∷◌, map, arith, ltb, ◌==◌,
  str_eq, has, length, if◌then◌else◌,
}
use soroban_dev_console.Wasm.Sections.{is_valid_wasm_header, extract_wasm_custom_section}

pub data WasmError : Type 0 where
  file_empty file_too_small bad_header : WasmError

-- `none` is a valid file. A file that is not given at all is not modelled.
unfoldable pub validate_wasm_binary : List ℕ → Option WasmError
validate_wasm_binary bytes =
    if length bytes == 0
    then some file_empty
    else if ltb (length bytes) 8
    then some file_too_small
    else if is_valid_wasm_header bytes
    then none
    else some bad_header

abbrev pub soroban_wasm_warn_limit_bytes : ℕ
soroban_wasm_warn_limit_bytes = 65536

abbrev pub is_wasm_over_warning_limit : ℕ → Bool
is_wasm_over_warning_limit size_bytes = ltb soroban_wasm_warn_limit_bytes size_bytes

abbrev pub is_constructor_function : (String → String) → String → Bool
is_constructor_function lower name =
    if str_eq name ""
    then false
    else has (lower name) ("__constructor" ∷ "init" ∷ "initialize" ∷ "constructor" ∷ "new" ∷ [])

pub record Parameter : Type 0 where
  pub name : String
  pub kind : String

pub record ContractFunction : Type 0 where
  pub name : String
  pub inputs : List Parameter
  pub outputs : List Parameter

-- `join(", ")`
unfoldable pub comma_join : List String → String
comma_join [] = ""
comma_join (t ∷ []) = t
comma_join (t ∷ u ∷ ts) = String.◌++◌ t (String.◌++◌ ", " (comma_join (u ∷ ts)))

unfoldable pub format_function_signature : ContractFunction → String
unfolding comma_join
format_function_signature f =
    let inputs =
      comma_join (map (λ (i : Parameter). String.◌++◌ i.name (String.◌++◌ ": " i.kind)) f.inputs) in
    let outputs = comma_join (map (λ (o : Parameter). o.kind) f.outputs) in
    let base = String.◌++◌ f.name (String.◌++◌ "(" (String.◌++◌ inputs ")")) in
    if str_eq outputs "" then base else String.◌++◌ base (String.◌++◌ " -> " outputs)

-- A file that the validation rejects has no custom section for the extraction to find, whatever the
-- name.
pub validate_wasm_binary-extract :
    (bytes target : List ℕ)
    → validate_wasm_binary bytes ≢ none
    → extract_wasm_custom_section bytes target ≡ none
unfolding validate_wasm_binary extract_wasm_custom_section
validate_wasm_binary-extract bytes target h = ground arith

signature_of_init :
    format_function_signature (record {
      name = "init";
      inputs =
          record { name = "admin"; kind = "address" }
          ∷ record { name = "decimals"; kind = "u32" }
          ∷ [];
      outputs = [];
    })
    ≡ "init(admin: address, decimals: u32)"
unfolding format_function_signature
signature_of_init = refl
