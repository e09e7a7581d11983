-- ===== src/Sanitizer/Detection.antt =====
-- apps/api/src/modules/shares/share-payload-sanitizer.ts: what is reported as detected.
use soroban_dev_console.Shared.{
  ℕ, ◌+◌, ◌≡◌, ◌≢◌, refl, ap, String, false, List, [], ◌∷◌, ◌++◌, ltb, arith, Bool-cases, inl, inr,
  length,
}
use soroban_dev_console.Sanitizer.{
  Json, scalar, literal, array, object, Items, nil, cons, Fields, end, field, max_depth,
  is_sensitive_key, join, add, walk, walk_items, walk_fields, sanitize_snapshot_payload,
}

add-some : (key : String) (found : List String) → add key found ≢ []
unfolding add
add-some key [] e = cc
add-some key (k ∷ found) e = ground arith

module _ (lower : String → String) where
  -- If nothing is detected when the walk ends, then nothing was when it began, and the value is as it
  -- was.
  mutual
    unfolding walk

    walk-quiet {ℓ} :
        {S : Type ℓ} (v : Json S) (path : List String) (depth : ℕ) (found : List String)
        → (walk lower v path depth found).1 ≡ []
        → (found ≡ []) × ((walk lower v path depth found).0 ≡ v)
    walk-quiet (scalar x) path depth found e = (e, refl)
    walk-quiet (literal s) path depth found e = (e, refl)
    walk-quiet (array items) path depth found e = elim (Bool-cases (ltb max_depth depth)) [
      | inl deep ↦ (ground (arith, deep), rw deep refl)
      | inr inside ↦
          let (before, same) =
            walk_items-quiet items path (depth + 1) found (ground (arith, inside)) in
          (before, rw inside (ap (λ r. array r) same))
    ]
    walk-quiet (object fields) path depth found e = elim (Bool-cases (ltb max_depth depth)) [
      | inl deep ↦ (ground (arith, deep), rw deep refl)
      | inr inside ↦
          let (before, same) =
            walk_fields-quiet fields path (depth + 1) found (ground (arith, inside)) in
          (before, rw inside (ap (λ r. object r) same))
    ]

    walk_items-quiet {ℓ} :
        {S : Type ℓ} (items : Items S) (path : List String) (depth : ℕ) (found : List String)
        → (walk_items lower items path depth found).1 ≡ []
        → (found ≡ []) × ((walk_items lower items path depth found).0 ≡ items)
    walk_items-quiet nil path depth found e = (e, refl)
    walk_items-quiet (cons item items) path depth found e =
        let (between, rest) = walk_items-quiet items path depth _ e in
        let (before, same) = walk-quiet item path depth found between in
        (before, rw (same, rest) refl)

    walk_fields-quiet {ℓ} :
        {S : Type ℓ} (fields : Fields S) (path : List String) (depth : ℕ) (found : List String)
        → (walk_fields lower fields path depth found).1 ≡ []
        → (found ≡ []) × ((walk_fields lower fields path depth found).0 ≡ fields)
    walk_fields-quiet end path depth found e = (e, refl)
    walk_fields-quiet (field key child fields) path depth found e =
        let at = path ++ key ∷ [] in
        let (between, rest) = walk_fields-quiet fields path depth _ e in
        elim (Bool-cases (is_sensitive_key lower key)) [
          | inl is_sensitive ↦
              absurd (add-some (join at) found (ground (arith, between, is_sensitive)))
          | inr isnt_sensitive ↦
              let (before, same) =
                walk-quiet child at depth found (ground (arith, between, isnt_sensitive)) in
              (before, rw rest (rw (isnt_sensitive, same) refl))
        ]

  -- A result that is not marked as sanitized has the payload itself as its snapshot: nothing was
  -- redacted that is not reported.
  pub sanitize_snapshot_payload-quiet {ℓ} :
      {S : Type ℓ} (sort : List String → List String) (payload : Json S)
      → ((keys : List String) → length (sort keys) ≡ length keys)
      → (sanitize_snapshot_payload lower sort payload).sanitized ≡ false
      → (sanitize_snapshot_payload lower sort payload).snapshot ≡ payload
  unfolding sanitize_snapshot_payload
  sanitize_snapshot_payload-quiet sort payload kept e =
      let found = (walk lower payload [] 0 []).1 in
      (walk-quiet payload [] 0 [] (length-nil found (ground (arith, kept found)))).1
    where
      length-nil : (keys : List String) → length keys ≡ 0 → keys ≡ []
      length-nil [] h = refl
      length-nil (k ∷ keys) h = absurd (omega arith)
