-- ===== src/Sanitizer/Redaction.antt =====
-- apps/api/src/modules/shares/share-payload-sanitizer.ts: what is redacted, and how deep.
use soroban_dev_console.Shared.{
  ℕ, zero, suc, ◌+◌, ◌≤◌, ◌<◌, ◌≡◌, refl, ap, String, Bool, true, false, List, [], ◌∷◌, ◌++◌, ltb,
  if◌then◌else◌, arith, Bool-cases, inl, inr,
}
use soroban_dev_console.Sanitizer.{
  Json, scalar, literal, array, object, Items, nil, cons, Fields, end, field, redacted, max_depth,
  is_sensitive_key, walk, walk_items, walk_fields, sanitize_snapshot_payload,
}
use Prim.Native.Nat.{max}

-- How many arrays and objects stand around the innermost value.
unfoldable mutual
  pub height {ℓ} : {S : Type ℓ} → Json S → ℕ
  height (scalar x) = 0
  height (literal s) = 0
  height (array items) = height_items items + 1
  height (object fields) = height_fields fields + 1

  pub height_items {ℓ} : {S : Type ℓ} → Items S → ℕ
  height_items nil = 0
  height_items (cons item items) = max (height item) (height_items items)

  pub height_fields {ℓ} : {S : Type ℓ} → Fields S → ℕ
  height_fields end = 0
  height_fields (field key child fields) = max (height child) (height_fields fields)

-- That many arrays around a value.
pub nested {ℓ} : {S : Type ℓ} → ℕ → Json S → Json S
nested zero v = v
nested (suc n) v = array (cons (nested n v) nil)

module _ (lower : String → String) where
  -- The value of every field with a sensitive key, at any place, is the marker.
  unfoldable mutual
    pub IsClean {ℓ} : {S : Type ℓ} → Json S → Type ℓ
    IsClean (scalar x) = Unit
    IsClean (literal s) = Unit
    IsClean (array items) = IsCleanItems items
    IsClean (object fields) = IsCleanFields fields

    pub IsCleanItems {ℓ} : {S : Type ℓ} → Items S → Type ℓ
    IsCleanItems nil = Unit
    IsCleanItems (cons item items) = IsClean item × IsCleanItems items

    pub IsCleanFields {ℓ} : {S : Type ℓ} → Fields S → Type ℓ
    IsCleanFields end = Unit
    IsCleanFields (field key child fields) =
        (is_sensitive_key lower key ≡ true → child ≡ literal redacted)
        × IsClean child
        × IsCleanFields fields

  redacted_or {ℓ} :
      {S : Type ℓ} (is_sensitive : Bool) (v : Json S)
      → IsClean v
      → (is_sensitive ≡ true → (if is_sensitive then literal redacted else v) ≡ literal redacted)
        × IsClean (if is_sensitive then literal redacted else v)
  unfolding IsClean
  redacted_or true v c = (λ e. refl, tt)
  redacted_or false v c = (λ e. cc, c)

  mutual
    unfolding walk height IsClean

    walk-IsClean {ℓ} :
        {S : Type ℓ} (v : Json S) (path : List String) (depth : ℕ) (found : List String)
        → depth + height v ≤ max_depth + 1
        → IsClean (walk lower v path depth found).0
    walk-IsClean (scalar x) path depth found h = tt
    walk-IsClean (literal s) path depth found h = tt
    walk-IsClean (array items) path depth found h =
        let inside : ltb max_depth depth ≡ false = ground arith in
        rw inside (walk_items-IsCleanItems items path (depth + 1) found (omega arith))
    walk-IsClean (object fields) path depth found h =
        let inside : ltb max_depth depth ≡ false = ground arith in
        rw inside (walk_fields-IsCleanFields fields path (depth + 1) found (omega arith))

    walk_items-IsCleanItems {ℓ} :
        {S : Type ℓ} (items : Items S) (path : List String) (depth : ℕ) (found : List String)
        → depth + height_items items ≤ max_depth + 1
        → IsCleanItems (walk_items lower items path depth found).0
    walk_items-IsCleanItems nil path depth found h = tt
    walk_items-IsCleanItems (cons item items) path depth found h = (
      walk-IsClean item path depth found (omega arith),
      walk_items-IsCleanItems items path depth _ (omega arith),
    )

    walk_fields-IsCleanFields {ℓ} :
        {S : Type ℓ} (fields : Fields S) (path : List String) (depth : ℕ) (found : List String)
        → depth + height_fields fields ≤ max_depth + 1
        → IsCleanFields (walk_fields lower fields path depth found).0
    walk_fields-IsCleanFields end path depth found h = tt
    walk_fields-IsCleanFields (field key child fields) path depth found h =
        let at = path ++ key ∷ [] in
        let is_sensitive = is_sensitive_key lower key in
        let (marked, clean) =
          redacted_or is_sensitive (walk lower child at depth found).0
            (walk-IsClean child at depth found (omega arith)) in
        (marked, clean, walk_fields-IsCleanFields fields path depth _ (omega arith))

  -- In the snapshot of a payload with at most 65 arrays and objects around any value, the value of
  -- every field with a sensitive key, at any place, is the marker.
  pub sanitize_snapshot_payload-IsClean {ℓ} :
      {S : Type ℓ} (sort : List String → List String) (payload : Json S)
      → height payload ≤ max_depth + 1
      → IsClean (sanitize_snapshot_payload lower sort payload).snapshot
  unfolding sanitize_snapshot_payload
  sanitize_snapshot_payload-IsClean sort payload h = walk-IsClean payload [] 0 [] (omega arith)

  walk-nested {ℓ} :
      {S : Type ℓ} (n : ℕ) (v : Json S) (path : List String) (depth : ℕ) (found : List String)
      → max_depth < depth + n
      → walk lower (nested (suc n) v) path depth found ≡ (nested (suc n) v, found)
  unfolding walk nested
  walk-nested zero v path depth found h =
      let deep : ltb max_depth depth ≡ true = ground arith in rw deep refl
  walk-nested (suc n) v path depth found h = elim (Bool-cases (ltb max_depth depth)) [
    | inl deep ↦ rw deep refl
    | inr inside ↦ rw (inside, walk-nested n v path (depth + 1) found (omega arith)) refl
  ]

  mutual
    unfolding walk

    walk-walk {ℓ} :
        {S : Type ℓ} (v : Json S) (path : List String) (depth : ℕ) (found found' : List String)
        → walk lower (walk lower v path depth found).0 path depth found'
          ≡ ((walk lower v path depth found).0, (walk lower v path depth found').1)
    walk-walk (scalar x) path depth found found' = refl
    walk-walk (literal s) path depth found found' = refl
    walk-walk (array items) path depth found found' = elim (Bool-cases (ltb max_depth depth)) [
      | inl deep ↦ rw (deep, deep) refl
      | inr inside ↦
          rw (inside, inside)
            (ap (λ w. (array w.0, w.1)) (walk_items-walk_items items path (depth + 1) found found'))
    ]
    walk-walk (object fields) path depth found found' = elim (Bool-cases (ltb max_depth depth)) [
      | inl deep ↦ rw (deep, deep) refl
      | inr inside ↦
          rw (inside, inside)
            (ap (λ w. (object w.0, w.1))
              (walk_fields-walk_fields fields path (depth + 1) found found'))
    ]

    walk_items-walk_items {ℓ} :
        {S : Type ℓ} (items : Items S) (path : List String) (depth : ℕ) (found found' : List String)
        → walk_items lower (walk_items lower items path depth found).0 path depth found' ≡ (
          (walk_items lower items path depth found).0,
          (walk_items lower items path depth found').1,
        )
    walk_items-walk_items nil path depth found found' = refl
    walk_items-walk_items (cons item items) path depth found found' =
        rw (walk-walk item path depth found found', walk_items-walk_items items path depth _ _) refl

    walk_fields-walk_fields {ℓ} :
        {S : Type ℓ} (fields : Fields S) (path : List String) (depth : ℕ)
        (found found' : List String)
        → walk_fields lower (walk_fields lower fields path depth found).0 path depth found' ≡ (
          (walk_fields lower fields path depth found).0,
          (walk_fields lower fields path depth found').1,
        )
    walk_fields-walk_fields end path depth found found' = refl
    walk_fields-walk_fields (field key child fields) path depth found found' =
        let again = walk-walk child (path ++ key ∷ []) depth found found' in
        elim (Bool-cases (is_sensitive_key lower key)) [
          | inl is_sensitive ↦ rw (is_sensitive, walk_fields-walk_fields fields path depth _ _) refl
          | inr isnt_sensitive ↦
              rw (isnt_sensitive, again, walk_fields-walk_fields fields path depth _ _) refl
        ]

  -- A payload that is a value under 66 or more arrays comes out unchanged, with nothing detected,
  -- whatever keys the value has.
  pub sanitize_snapshot_payload-too_deep {ℓ} :
      {S : Type ℓ} (sort : List String → List String) (n : ℕ) (v : Json S)
      → max_depth < n
      → sort [] ≡ []
      → let out = sanitize_snapshot_payload lower sort (nested (suc n) v) in
        (out.snapshot ≡ nested (suc n) v) × (out.sanitized ≡ false)
  unfolding sanitize_snapshot_payload
  sanitize_snapshot_payload-too_deep sort n v h e =
      rw (walk-nested n v [] 0 [] (omega arith), e) (refl, refl)

  -- To sanitize a snapshot again changes nothing, and detects the same keys.
  pub sanitize_snapshot_payload-again {ℓ} :
      {S : Type ℓ} (sort : List String → List String) (payload : Json S)
      → let out = sanitize_snapshot_payload lower sort payload in
        sanitize_snapshot_payload lower sort out.snapshot ≡ out
  unfolding sanitize_snapshot_payload
  sanitize_snapshot_payload-again sort payload = rw (walk-walk payload [] 0 [] []) refl
