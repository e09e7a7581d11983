-- ===== src/Shares/Payloads.antt =====
-- apps/api/src/modules/shares/shares.service.ts: `sortJsonKeys`, `getJsonDepth` and
-- `normalizeSnapshot`. `sort` is `Array.prototype.sort` and `parse` is `JSON.parse`, which gives
-- nothing where it throws.
use Prim.Native.Nat.{max}
use soroban_dev_console.Shared.{
  ℕ, ◌+◌, String, Option, none, some, List, [], ◌∷◌, str_eq, if◌then◌else◌,
}
use soroban_dev_console.Sanitizer.{
  Json, scalar, literal, array, object, Items, nil, cons, Fields, end, field,
}

-- `Object.keys`
unfoldable pub keys {ℓ} : {S : Type ℓ} → Fields S → List String
keys end = []
keys (field key v fields) = key ∷ keys fields

unfoldable pub get_field {ℓ} : {S : Type ℓ} → String → Fields S → Option (Json S)
get_field key end = none
get_field key (field k v fields) = if str_eq k key then some v else get_field key fields

-- `for (const key of sortedKeys) result[key] = …`
unfoldable pub rebuilt {ℓ} : {S : Type ℓ} → List String → Fields S → Fields S
rebuilt [] fields = end
rebuilt (key ∷ sorted) fields = elim (get_field key fields) [
  | none ↦ rebuilt sorted fields
  | some v ↦ field key v (rebuilt sorted fields)
]

module _ (sort : List String → List String) where
  unfoldable mutual
    pub sort_json_keys {ℓ} : {S : Type ℓ} → Json S → Json S
    sort_json_keys (scalar x) = scalar x
    sort_json_keys (literal s) = literal s
    sort_json_keys (array items) = array (sort_items items)
    sort_json_keys (object fields) = object (rebuilt (sort (keys fields)) (sort_fields fields))

    pub sort_items {ℓ} : {S : Type ℓ} → Items S → Items S
    sort_items nil = nil
    sort_items (cons v items) = cons (sort_json_keys v) (sort_items items)

    pub sort_fields {ℓ} : {S : Type ℓ} → Fields S → Fields S
    sort_fields end = end
    sort_fields (field key v fields) = field key (sort_json_keys v) (sort_fields fields)

unfoldable mutual
  pub json_depth {ℓ} : {S : Type ℓ} → Json S → ℕ → ℕ
  json_depth (scalar x) depth = depth
  json_depth (literal s) depth = depth
  json_depth (array nil) depth = depth
  json_depth (array (cons v items)) depth =
      max (json_depth v (depth + 1)) (items_depth items (depth + 1))
  json_depth (object end) depth = depth
  json_depth (object (field key v fields)) depth =
      max (json_depth v (depth + 1)) (fields_depth fields (depth + 1))

  -- The greatest depth of these items, 0 of none.
  pub items_depth {ℓ} : {S : Type ℓ} → Items S → ℕ → ℕ
  items_depth nil depth = 0
  items_depth (cons v items) depth = max (json_depth v depth) (items_depth items depth)

  pub fields_depth {ℓ} : {S : Type ℓ} → Fields S → ℕ → ℕ
  fields_depth end depth = 0
  fields_depth (field key v fields) depth = max (json_depth v depth) (fields_depth fields depth)

-- The argument is nothing where the field is absent; the result is nothing where the code throws.
unfoldable pub normalize_snapshot {ℓ} :
    {S : Type ℓ} → (String → Option (Json S)) → Option (Json S) → Option (Json S)
normalize_snapshot parse none = none
normalize_snapshot parse (some (literal s)) = parse s
normalize_snapshot parse (some (object fields)) = some (object fields)
normalize_snapshot parse (some v) = none
