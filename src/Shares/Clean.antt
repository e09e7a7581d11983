-- ===== src/Shares/Clean.antt =====
-- apps/api/src/modules/shares/shares.service.ts, `create`: no secret is stored. The sanitizer stops
-- at a depth of 64, and `create` refuses what is deeper than 10.
use Prim.Native.Nat.{max}
use mathlib.Core.Path.{subst}
use soroban_dev_console.Shared.{
  ℕ, zero, suc, ◌+◌, ◌≤◌, ◌≡◌, refl, ap, String, Bool, true, false, some, List, [], ◌∷◌, ◌++◌, ltb,
  if◌then◌else◌, arith, Bool-cases, inl, inr, Option-cases, str_eq, eq_iff,
}
use soroban_dev_console.Sanitizer.{
  Json, scalar, literal, array, object, Items, nil, cons, Fields, end, field, redacted, max_depth,
  is_sensitive_key, walk, walk_items, walk_fields,
}
use soroban_dev_console.Sanitizer.Redaction.{
  height, height_items, height_fields, IsClean, IsCleanItems, IsCleanFields,
}
use soroban_dev_console.Shares.Payloads.{
  keys, get_field, rebuilt, sort_json_keys, sort_items, sort_fields, json_depth, items_depth,
  fields_depth,
}

module _ (lower : String → String) where
  -- Clean down to so many levels.
  mutual
    pub CleanTo {ℓ} : {S : Type ℓ} → ℕ → Json S → Type ℓ
    CleanTo zero v = Unit
    CleanTo (suc n) (scalar x) = Unit
    CleanTo (suc n) (literal s) = Unit
    CleanTo (suc n) (array items) = CleanItemsTo n items
    CleanTo (suc n) (object fields) = CleanFieldsTo n fields

    CleanItemsTo {ℓ} : {S : Type ℓ} → ℕ → Items S → Type ℓ
    CleanItemsTo n nil = Unit
    CleanItemsTo n (cons v items) = CleanTo n v × CleanItemsTo n items

    CleanFieldsTo {ℓ} : {S : Type ℓ} → ℕ → Fields S → Type ℓ
    CleanFieldsTo n end = Unit
    CleanFieldsTo n (field key v fields) =
        (is_sensitive_key lower key ≡ true → v ≡ literal redacted)
        × CleanTo n v
        × CleanFieldsTo n fields

  redacted_or {ℓ} :
      {S : Type ℓ} (n : ℕ) (is_sensitive : Bool) (v : Json S)
      → CleanTo n v
      → (is_sensitive ≡ true → (if is_sensitive then literal redacted else v) ≡ literal redacted)
        × CleanTo n (if is_sensitive then literal redacted else v)
  unfolding CleanTo
  redacted_or zero true v c = (λ e. refl, tt)
  redacted_or (suc n) true v c = (λ e. refl, tt)
  redacted_or n false v c = (λ e. cc, c)

  mutual
    unfolding walk CleanTo

    pub walk-CleanTo {ℓ} :
        {S : Type ℓ} (v : Json S) (path : List String) (depth : ℕ) (found : List String) (n : ℕ)
        → depth + n ≤ max_depth + 1
        → CleanTo n (walk lower v path depth found).0
    walk-CleanTo v path depth found zero h = tt
    walk-CleanTo (scalar x) path depth found (suc n) h = tt
    walk-CleanTo (literal s) path depth found (suc n) h = tt
    walk-CleanTo (array items) path depth found (suc n) h =
        let inside : ltb max_depth depth ≡ false = ground arith in
        rw inside (walk_items-CleanItemsTo items path (depth + 1) found n (omega arith))
    walk-CleanTo (object fields) path depth found (suc n) h =
        let inside : ltb max_depth depth ≡ false = ground arith in
        rw inside (walk_fields-CleanFieldsTo fields path (depth + 1) found n (omega arith))

    walk_items-CleanItemsTo {ℓ} :
        {S : Type ℓ} (items : Items S) (path : List String) (depth : ℕ) (found : List String)
        (n : ℕ)
        → depth + n ≤ max_depth + 1
        → CleanItemsTo n (walk_items lower items path depth found).0
    walk_items-CleanItemsTo nil path depth found n h = tt
    walk_items-CleanItemsTo (cons v items) path depth found n h =
        (walk-CleanTo v path depth found n h, walk_items-CleanItemsTo items path depth _ n h)

    walk_fields-CleanFieldsTo {ℓ} :
        {S : Type ℓ} (fields : Fields S) (path : List String) (depth : ℕ) (found : List String)
        (n : ℕ)
        → depth + n ≤ max_depth + 1
        → CleanFieldsTo n (walk_fields lower fields path depth found).0
    walk_fields-CleanFieldsTo end path depth found n h = tt
    walk_fields-CleanFieldsTo (field key v fields) path depth found n h =
        let (marked, clean) =
          redacted_or n (is_sensitive_key lower key) (walk lower v (path ++ key ∷ []) depth found).0
            (walk-CleanTo v (path ++ key ∷ []) depth found n h) in
        (marked, clean, walk_fields-CleanFieldsTo fields path depth _ n h)

  get_field-CleanTo {ℓ} :
      {S : Type ℓ} (n : ℕ) (key : String) (fields : Fields S) (v : Json S)
      → CleanFieldsTo n fields
      → get_field key fields ≡ some v
      → (is_sensitive_key lower key ≡ true → v ≡ literal redacted) × CleanTo n v
  unfolding get_field CleanTo
  get_field-CleanTo n key end v c h = absurd (ground (arith, h))
  get_field-CleanTo n key (field k w fields) v (marked, clean, rest) h =
      elim (Bool-cases (str_eq k key)) [
        | inl same ↦
            let here : w ≡ v = ground (arith, h, same) in
            subst (λ k. (is_sensitive_key lower k ≡ true → v ≡ literal redacted) × CleanTo n v)
              ((eq_iff k key).0 same)
              (subst (λ x. (is_sensitive_key lower k ≡ true → x ≡ literal redacted) × CleanTo n x)
                here (marked, clean))
        | inr other ↦ get_field-CleanTo n key fields v rest (ground (arith, h, other))
      ]

  rebuilt-CleanFieldsTo {ℓ} :
      {S : Type ℓ} (n : ℕ) (sorted : List String) (fields : Fields S)
      → CleanFieldsTo n fields
      → CleanFieldsTo n (rebuilt sorted fields)
  unfolding rebuilt CleanTo
  rebuilt-CleanFieldsTo n [] fields c = tt
  rebuilt-CleanFieldsTo n (key ∷ sorted) fields c = elim (Option-cases (get_field key fields)) [
    | inl missing ↦
        let e : rebuilt (key ∷ sorted) fields ≡ rebuilt sorted fields = ground (arith, missing) in
        rw e (rebuilt-CleanFieldsTo n sorted fields c)
    | inr (v, found) ↦
        let (marked, clean) = get_field-CleanTo n key fields v c found in
        let e : rebuilt (key ∷ sorted) fields ≡ field key v (rebuilt sorted fields) =
          ground (arith, found) in
        rw e (marked, clean, rebuilt-CleanFieldsTo n sorted fields c)
  ]

  module _ (sort : List String → List String) where
    mutual
      unfolding sort_json_keys CleanTo

      pub sort-CleanTo {ℓ} :
          {S : Type ℓ} (n : ℕ) (v : Json S) → CleanTo n v → CleanTo n (sort_json_keys sort v)
      sort-CleanTo zero v c = tt
      sort-CleanTo (suc n) (scalar x) c = tt
      sort-CleanTo (suc n) (literal s) c = tt
      sort-CleanTo (suc n) (array items) c = sort_items-CleanItemsTo n items c
      sort-CleanTo (suc n) (object fields) c =
          rebuilt-CleanFieldsTo n (sort (keys fields)) (sort_fields sort fields)
            (sort_fields-CleanFieldsTo n fields c)

      sort_items-CleanItemsTo {ℓ} :
          {S : Type ℓ} (n : ℕ) (items : Items S)
          → CleanItemsTo n items
          → CleanItemsTo n (sort_items sort items)
      sort_items-CleanItemsTo n nil c = tt
      sort_items-CleanItemsTo n (cons v items) (c, rest) =
          (sort-CleanTo n v c, sort_items-CleanItemsTo n items rest)

      sort_fields-CleanFieldsTo {ℓ} :
          {S : Type ℓ} (n : ℕ) (fields : Fields S)
          → CleanFieldsTo n fields
          → CleanFieldsTo n (sort_fields sort fields)
      sort_fields-CleanFieldsTo n end c = tt
      sort_fields-CleanFieldsTo n (field key v fields) (marked, c, rest) = (
        (λ e. ap (sort_json_keys sort) (marked e)),
        sort-CleanTo n v c,
        sort_fields-CleanFieldsTo n fields rest,
      )

  mutual
    unfolding CleanTo IsClean height

    pub CleanTo-IsClean {ℓ} :
        {S : Type ℓ} (n : ℕ) (v : Json S) → height v ≤ n → CleanTo n v → IsClean lower v
    CleanTo-IsClean n (scalar x) h c = tt
    CleanTo-IsClean n (literal s) h c = tt
    CleanTo-IsClean zero (array items) h c = absurd (omega (arith, h))
    CleanTo-IsClean (suc n) (array items) h c = items-IsClean n items (omega (arith, h)) c
    CleanTo-IsClean zero (object fields) h c = absurd (omega (arith, h))
    CleanTo-IsClean (suc n) (object fields) h c = fields-IsClean n fields (omega (arith, h)) c

    items-IsClean {ℓ} :
        {S : Type ℓ} (n : ℕ) (items : Items S)
        → height_items items ≤ n
        → CleanItemsTo n items
        → IsCleanItems lower items
    items-IsClean n nil h c = tt
    items-IsClean n (cons v items) h (c, rest) =
        (CleanTo-IsClean n v (omega (arith, h)) c, items-IsClean n items (omega (arith, h)) rest)

    fields-IsClean {ℓ} :
        {S : Type ℓ} (n : ℕ) (fields : Fields S)
        → height_fields fields ≤ n
        → CleanFieldsTo n fields
        → IsCleanFields lower fields
    fields-IsClean n end h c = tt
    fields-IsClean n (field key v fields) h (marked, c, rest) = (
      marked,
      CleanTo-IsClean n v (omega (arith, h)) c,
      fields-IsClean n fields (omega (arith, h)) rest,
    )

-- The depth that is measured, and the height.
mutual
  unfolding json_depth height

  pub height-depth {ℓ} : {S : Type ℓ} (v : Json S) (d : ℕ) → height v + d ≤ json_depth v d + 1
  height-depth (scalar x) d = omega arith
  height-depth (literal s) d = omega arith
  height-depth (array nil) d = omega arith
  height-depth (array (cons v items)) d =
      omega (arith, height-depth v (d + 1), height_items-depth items (d + 1), depth_above v (d + 1))
  height-depth (object end) d = omega arith
  height-depth (object (field key v fields)) d =
      omega
        (arith, height-depth v (d + 1), height_fields-depth fields (d + 1), depth_above v (d + 1))

  depth_above {ℓ} : {S : Type ℓ} (v : Json S) (d : ℕ) → d ≤ json_depth v d
  depth_above (scalar x) d = omega arith
  depth_above (literal s) d = omega arith
  depth_above (array nil) d = omega arith
  depth_above (array (cons v items)) d = omega (arith, depth_above v (d + 1))
  depth_above (object end) d = omega arith
  depth_above (object (field key v fields)) d = omega (arith, depth_above v (d + 1))

  height_items-depth {ℓ} :
      {S : Type ℓ} (items : Items S) (d : ℕ)
      → height_items items + d ≤ max d (items_depth items d) + 1
  height_items-depth nil d = omega arith
  height_items-depth (cons v items) d = omega (arith, height-depth v d, height_items-depth items d)

  height_fields-depth {ℓ} :
      {S : Type ℓ} (fields : Fields S) (d : ℕ)
      → height_fields fields + d ≤ max d (fields_depth fields d) + 1
  height_fields-depth end d = omega arith
  height_fields-depth (field key v fields) d =
      omega (arith, height-depth v d, height_fields-depth fields d)
