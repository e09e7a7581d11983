-- ===== src/Shares/Stored.antt =====
-- apps/api/src/modules/shares/shares.service.ts: what `create` stores, and that it holds no secret.
use soroban_dev_console.Shared.{
  ℕ, ◌+◌, ◌*◌, ◌≤◌, ◌<◌, ◌≡◌, refl, ap, sym, String, true, Option, none, some, List, [], ◌∷◌, ◌++◌,
  ltb, leb, if◌then◌else◌, arith, Bool-cases, inl, inr, Option-cases, not, find, str_eq, ◌∙◌,
}
use soroban_dev_console.Sanitizer.{Json, sanitize_snapshot_payload, SanitizedSnapshotResult, walk}
use soroban_dev_console.Sanitizer.Redaction.{IsClean}
use soroban_dev_console.Workspaces.{has_id, truthy}
use soroban_dev_console.Shares.{Links, done}
use soroban_dev_console.Shares.Payloads.{sort_json_keys, json_depth, normalize_snapshot}
use soroban_dev_console.Shares.Creation.{
  CreateShareDto, Created, Expiry, never, at, invalid, refused, max_json_depth,
  max_snapshot_size_bytes, is_excluding, unsanitized, proceed, create, check, save, resolve_expiry,
  bounded,
}
use soroban_dev_console.Shares.Clean.{walk-CleanTo, sort-CleanTo, CleanTo-IsClean, height-depth}

-- A time of expiry lies in the next year.
abbrev pub InYear : (ℕ → ℕ) → ℕ → Option ℕ → Type 0
InYear year_later now none = Unit
InYear year_later now (some t) = (now < t) × (t ≤ year_later now)

-- What an expiry stores.
abbrev Fits : Expiry → Option ℕ → Type 0
Fits never e = e ≡ none
Fits (at t) e = e ≡ some t
Fits invalid e = Unit
Fits refused e = Unit

abbrev Accepted : (ℕ → ℕ) → ℕ → Expiry → Type 0
Accepted year_later now (at t) = (now < t) × (t ≤ year_later now)
Accepted year_later now never = Unit
Accepted year_later now invalid = Unit
Accepted year_later now refused = Unit

module _ (date : String → Option ℕ) (year_later : ℕ → ℕ) (now : ℕ) where
  bounded-Accepted : (t : ℕ) → Accepted year_later now (bounded date year_later now t)
  bounded-Accepted t = elim (Bool-cases (leb t now)) [
    | inl past ↦ rw past tt
    | inr future ↦ elim (Bool-cases (ltb (year_later now) t)) [
      | inl far ↦ rw (future, far) tt
      | inr near ↦ rw (future, near) (ground (arith, future), ground (arith, near))
    ]
  ]

  dated-Accepted :
      (o : Option String)
      → Accepted year_later now (elim o [
        | none ↦ never
        | some t ↦ elim (date t) [ none ↦ invalid | some time ↦ bounded date year_later now time ]
      ])
  dated-Accepted none = tt
  dated-Accepted (some t) = elim (Option-cases (date t)) [
    | inl wrong ↦ rw wrong tt
    | inr (time, right) ↦ rw right (bounded-Accepted time)
  ]

  resolve_expiry-Accepted :
      (seconds : Option ℕ) (text : Option String)
      → Accepted year_later now (resolve_expiry date year_later now seconds text)
  unfolding resolve_expiry
  resolve_expiry-Accepted (some n) text = bounded-Accepted (now + n * 1000)
  resolve_expiry-Accepted none none = tt
  resolve_expiry-Accepted none (some text) = dated-Accepted (truthy text)

module _ {ℓ} {S : Type ℓ} (lower : String → String) (sort : List String → List String)
    (parse : String → Option (Json S)) (size : Json S → ℕ) (date : String → Option ℕ)
    (year_later : ℕ → ℕ) (now : ℕ) (id token owner_key : String) (dto : CreateShareDto S)
    (l : Links S) (c : Created S) where
  -- What is stored when the request succeeds.
  abbrev Stored : Json S → Links S → Type ℓ
  Stored snapshot t =
      (c.share.snapshot_json ≡ snapshot)
      × (t.shares ≡ l.shares ++ c.share ∷ [])
      × InYear year_later now c.share.expires_at

  pub record IsStored (t : Links S) : Type ℓ where
    pub added : t.shares ≡ l.shares ++ c.share ∷ []
    pub shallow : json_depth c.share.snapshot_json 0 ≤ max_json_depth
    pub small : size c.share.snapshot_json ≤ max_snapshot_size_bytes
    pub in_year : InYear year_later now c.share.expires_at
    pub clean :
        is_excluding dto.exclude_custom_auth_headers ≡ true → IsClean lower c.share.snapshot_json

  save-Stored :
      (expiry : Expiry) (out : SanitizedSnapshotResult S) (snapshot : Json S)
      → Accepted year_later now expiry
      → (save lower sort parse size date year_later now id token owner_key dto expiry out snapshot
          l).0
        ≡ done c
      → Stored snapshot
          (save lower sort parse size date year_later now id token owner_key dto expiry out snapshot
            l).1
  unfolding save
  save-Stored never out snapshot a h = ground (arith, h)
  save-Stored (at t) out snapshot a h = ground (arith, h)
  save-Stored invalid out snapshot a h = ground (arith, h)
  save-Stored refused out snapshot a h = ground (arith, h)

  abbrev out_of : Json S → SanitizedSnapshotResult S
  out_of snapshot =
      if is_excluding dto.exclude_custom_auth_headers
      then sanitize_snapshot_payload lower sort snapshot
      else unsanitized snapshot

  abbrev kept_of : Json S → Json S
  kept_of snapshot = sort_json_keys sort (out_of snapshot).snapshot

  kept_of-IsClean :
      (snapshot : Json S)
      → json_depth (kept_of snapshot) 0 ≤ max_json_depth
      → is_excluding dto.exclude_custom_auth_headers ≡ true
      → IsClean lower (kept_of snapshot)
  unfolding sanitize_snapshot_payload
  kept_of-IsClean snapshot shallow e =
      let same : kept_of snapshot ≡ sort_json_keys sort (walk lower snapshot [] 0 []).0 =
        rw e refl in
      CleanTo-IsClean lower 65 (kept_of snapshot)
        (omega (arith, shallow, height-depth (kept_of snapshot) 0))
        (rw same
          (sort-CleanTo lower sort 65 _ (walk-CleanTo lower snapshot [] 0 [] 65 (omega arith))))

  -- Past both checks, `check` writes.
  check_passed :
      (expiry : Expiry) (snapshot : Json S)
      → (check lower sort parse size date year_later now id token owner_key dto expiry snapshot l).0
        ≡ done c
      → (check lower sort parse size date year_later now id token owner_key dto expiry snapshot l
          ≡ save lower sort parse size date year_later now id token owner_key dto expiry
              (out_of snapshot)
              (kept_of snapshot)
              l)
        × (size (kept_of snapshot) ≤ max_snapshot_size_bytes)
        × (json_depth (kept_of snapshot) 0 ≤ max_json_depth)
  unfolding check
  check_passed expiry snapshot h =
      elim (Bool-cases (ltb max_snapshot_size_bytes (size (kept_of snapshot)))) [
        | inl large ↦ absurd (ground (arith, h, large))
        | inr small ↦ elim (Bool-cases (ltb max_json_depth (json_depth (kept_of snapshot) 0))) [
          | inl deep ↦ absurd (ground (arith, h, small, deep))
          | inr shallow ↦
              (ground (arith, small, shallow), ground (arith, small), ground (arith, shallow))
        ]
      ]

  check-IsStored :
      (expiry : Expiry) (snapshot : Json S)
      → Accepted year_later now expiry
      → (check lower sort parse size date year_later now id token owner_key dto expiry snapshot l).0
        ≡ done c
      → IsStored
          (check lower sort parse size date year_later now id token owner_key dto expiry snapshot
            l).1
  check-IsStored expiry snapshot a h =
      let (written, small, shallow) = check_passed expiry snapshot h in
      let (same, added, in_year) =
        save-Stored expiry (out_of snapshot) (kept_of snapshot) a
          (ap (λ r. r.0) (sym written) ∙ h) in
      rw (written) (record {
        added = added;
        shallow = rw same shallow;
        small = rw same small;
        in_year = in_year;
        clean = λ e. rw same (kept_of-IsClean snapshot shallow e);
      })

  proceed-IsStored :
      (expiry : Expiry) (snapshot : Option (Json S))
      → Accepted year_later now expiry
      → (proceed lower sort parse size date year_later now id token owner_key dto expiry snapshot
          l).0
        ≡ done c
      → IsStored
          (proceed lower sort parse size date year_later now id token owner_key dto expiry snapshot
            l).1
  unfolding proceed
  proceed-IsStored refused snapshot a h = absurd (ground (arith, h))
  proceed-IsStored never none a h = absurd (ground (arith, h))
  proceed-IsStored (at t) none a h = absurd (ground (arith, h))
  proceed-IsStored invalid none a h = absurd (ground (arith, h))
  proceed-IsStored never (some snapshot) a h = check-IsStored never snapshot a h
  proceed-IsStored (at t) (some snapshot) a h = check-IsStored (at t) snapshot a h
  proceed-IsStored invalid (some snapshot) a h = check-IsStored invalid snapshot a h

  -- A share that `create` makes is put behind the others; its snapshot is at most 10 levels deep and
  -- at most 500000 characters long, its expiry, if it has one, is in the future and at most a year
  -- away, and unless the request asks otherwise, the value of every field with a sensitive key, at
  -- any place in the snapshot, is the marker.
  pub create-IsStored :
      (create lower sort parse size date year_later now id token owner_key dto l).0 ≡ done c
      → IsStored (create lower sort parse size date year_later now id token owner_key dto l).1
  unfolding create
  create-IsStored h = elim (Option-cases (find (has_id dto.workspace_id) l.store.rows)) [
    | inl missing ↦ absurd (ground (arith, h, missing))
    | inr (w, found) ↦ elim (Bool-cases (not (str_eq w.owner_key owner_key))) [
      | inl other ↦ absurd (ground (arith, h, found, other))
      | inr own ↦
          let expiry = resolve_expiry date year_later now dto.expires_in_seconds dto.expires_at in
          let snapshot = normalize_snapshot parse dto.snapshot_json in
          let same : create lower sort parse size date year_later now id token owner_key dto l
              ≡ proceed lower sort parse size date year_later now id token owner_key dto expiry
                  snapshot l =
            ground (arith, found, own) in
          rw same (
            proceed-IsStored expiry snapshot
              (resolve_expiry-Accepted date year_later now dto.expires_in_seconds dto.expires_at)
              (ap (λ r. r.0) (sym same) ∙ h))
    ]
  ]
