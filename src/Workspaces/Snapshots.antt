-- ===== src/Workspaces/Snapshots.antt =====
-- apps/api/src/modules/workspaces/workspaces.service.ts, `import` and `export`, with
-- apps/api/src/lib/schema-version.ts. The times that the database keeps with a row are arguments of
-- the export.
use mathlib.Core.Path.{subst}
use soroban_dev_console.Shared.{
  ℕ, ◌≡◌, refl, ◌∙◌, ap, sym, String, true, false, none, some, List, [], ◌∷◌, ◌++◌, map, any, ◌==◌,
  str_eq, if◌then◌else◌, arith, find, str_eq_self, Option-cases, inl, inr,
}
use soroban_dev_console.Workspaces.{
  Contract, Artifact, Workspace, Store, Answer, done, not_found, bad_request, or_text, get,
  insert_row, logged, has_id, is_owned,
}

abbrev pub api_snapshot_version : ℕ
api_snapshot_version = 2

abbrev pub supported_import_versions : List ℕ
supported_import_versions = api_snapshot_version ∷ []

pub record ArtifactRef : Type 0 where
  pub kind : String
  pub id : String

pub record ImportWorkspaceDto : Type 0 where
  pub version : ℕ
  pub id : String
  pub name : String
  pub selected_network : String
  pub contract_ids : List String
  pub saved_call_ids : List String
  pub artifact_refs : List ArtifactRef

-- What is exported: what `import` reads, and the times of the row.
pub record Snapshot : Type 0 where
  pub content : ImportWorkspaceDto
  pub created_at : ℕ
  pub updated_at : ℕ

abbrev pub ref_of : Artifact → ArtifactRef
ref_of a = record { kind = a.kind; id = or_text a.hash a.name }

unfoldable pub content_of : Workspace → ImportWorkspaceDto
content_of w = record {
  version = api_snapshot_version;
  id = w.id;
  name = w.name;
  selected_network = w.selected_network;
  contract_ids = map (λ c. c.contract_id) w.saved_contracts;
  saved_call_ids = map (λ i. i.id) w.saved_interactions;
  artifact_refs = map ref_of w.artifacts;
}

unfoldable pub snapshot_of : ℕ → ℕ → Workspace → Snapshot
snapshot_of created_at updated_at w = record {
  content = content_of w;
  created_at = created_at;
  updated_at = updated_at;
}

unfoldable pub export : ℕ → ℕ → String → String → Store → Answer Snapshot × Store
export created_at updated_at id owner_key s = elim (get id owner_key s) [
  | none ↦ (not_found, s)
  | some w ↦ (
    done (snapshot_of created_at updated_at w),
    logged owner_key "workspace.exported" id s.rows s,
  )
]

-- `exportZip`: the parts of the archive.
unfoldable pub export_zip : ℕ → ℕ → String → String → Store → Answer (Snapshot × Workspace) × Store
export_zip created_at updated_at id owner_key s = elim (get id owner_key s) [
  | none ↦ (not_found, s)
  | some w ↦ (
    done (snapshot_of created_at updated_at w, w),
    logged owner_key "workspace.exported_zip" id s.rows s,
  )
]

abbrev pub contract_of : String → String → Contract
contract_of network contract_id = record { contract_id = contract_id; network = network }

abbrev pub artifact_of : String → ArtifactRef → Artifact
artifact_of network a = record {
  kind = a.kind;
  name = a.id;
  network = network;
  hash = if str_eq a.kind "wasm" then some a.id else none;
}

module _ (trim : String → String) where
  unfoldable pub imported : String → ImportWorkspaceDto → Workspace
  imported owner_key dto = record {
    id = dto.id;
    owner_key = owner_key;
    name = trim dto.name;
    description = none;
    selected_network = dto.selected_network;
    archived = false;
    revision = 0;
    tags = [];
    saved_contracts = map (contract_of dto.selected_network) dto.contract_ids;
    saved_interactions = [];
    artifacts = map (artifact_of dto.selected_network) dto.artifact_refs;
  }

  unfoldable pub import : String → ImportWorkspaceDto → Store → Answer Workspace × Store
  import owner_key dto s =
      if any (λ v. v == dto.version) supported_import_versions
      then insert_row owner_key "workspace.imported" (imported owner_key dto) s
      else (bad_request, s)

  refs_kept :
      (network : String) (refs : List ArtifactRef)
      → map ref_of (map (artifact_of network) refs) ≡ refs
  refs_kept network [] = refl
  refs_kept network (r ∷ refs) = ground (arith, refs_kept network refs)

  ids_kept :
      (network : String) (ids : List String)
      → map (λ c. c.contract_id) (map (contract_of network) ids) ≡ ids
  ids_kept network [] = refl
  ids_kept network (i ∷ ids) = ap (◌∷◌ i) (ids_kept network ids)

  content_of-imported :
      (owner_key : String) (w : Workspace)
      → content_of (imported owner_key (content_of w))
        ≡ (record (content_of w) { name = trim w.name; saved_call_ids = [] })
  unfolding content_of imported
  content_of-imported owner_key w =
      rw
        (
          refs_kept w.selected_network (map ref_of w.artifacts),
          ids_kept w.selected_network (map (λ c. c.contract_id) w.saved_contracts),
        )
        refl

  find_added :
      (id owner_key : String) (w : Workspace) (ws : List Workspace)
      → any (has_id id) ws ≡ false
      → is_owned id owner_key w ≡ true
      → find (is_owned id owner_key) (ws ++ w ∷ []) ≡ some w
  find_added id owner_key w [] n h = ground arith
  find_added id owner_key w (v ∷ ws) n h = ground (arith, find_added id owner_key w ws)

  exported :
      (created updated : ℕ) (id owner_key : String) (s : Store) (w : Workspace)
      → get id owner_key s ≡ some w
      → (export created updated id owner_key s).0 ≡ done (snapshot_of created updated w)
  unfolding export
  exported created updated id owner_key s w found = ground (arith, found)

  exported_from :
      (created updated : ℕ) (id owner_key : String) (s : Store) (snapshot : Snapshot)
      → (export created updated id owner_key s).0 ≡ done snapshot
      → (w : Workspace) × (snapshot.content ≡ content_of w)
  unfolding export snapshot_of
  exported_from created updated id owner_key s snapshot h =
      elim (Option-cases (get id owner_key s)) [
        | inl missing ↦ absurd (ground (arith, missing, h))
        | inr (w, found) ↦
            let same : snapshot_of created updated w ≡ snapshot = ground (arith, found, h) in
            (w, sym (ap (λ x. x.content) same))
      ]

  -- The snapshot of an imported workspace: the content but for the name and the saved calls, and the
  -- times of the new row.
  abbrev pub reexported : ℕ → ℕ → ImportWorkspaceDto → Snapshot
  reexported created updated dto = record {
    content = record dto { name = trim dto.name; saved_call_ids = [] };
    created_at = created;
    updated_at = updated;
  }

  export_imported :
      (created updated : ℕ) (new_owner : String) (w : Workspace) (t : Store)
      → any (has_id w.id) t.rows ≡ false
      → (export created updated w.id new_owner (import new_owner (content_of w) t).1).0
        ≡ done (reexported created updated (content_of w))
  unfolding import insert_row get imported content_of snapshot_of
  export_imported created updated new_owner w t n =
      let new = imported new_owner (content_of w) in
      let here : is_owned w.id new_owner new ≡ true =
        rw (str_eq_self w.id, str_eq_self new_owner) refl in
      let added : (import new_owner (content_of w) t).1
          ≡ logged new_owner "workspace.imported" w.id (t.rows ++ new ∷ []) t =
        rw n refl in
      rw added (
        exported created updated w.id new_owner
          (logged new_owner "workspace.imported" w.id (t.rows ++ new ∷ []) t) new
          (find_added w.id new_owner new t.rows n here)
        ∙ ap (λ c. done (record { content = c; created_at = created; updated_at = updated }))
            (content_of-imported new_owner w))

  abbrev Kept : ℕ → ℕ → String → Store → ImportWorkspaceDto → Type 0
  Kept created updated new_owner t dto =
      any (has_id dto.id) t.rows ≡ false
      → (export created updated dto.id new_owner (import new_owner dto t).1).0
        ≡ done (reexported created updated dto)

  -- The content of a snapshot that `export` gives is accepted by `import`, for any owner, where no
  -- workspace has its id, and the workspace that is made exports with the same content, but for
  -- the name, which is trimmed, and the ids of the saved calls, which are lost. The times of the
  -- first snapshot are not restored: the second has those of the new row.
  pub export-import :
      (created updated created' updated' : ℕ) (id owner_key new_owner : String) (s t : Store)
      (snapshot : Snapshot)
      → (export created updated id owner_key s).0 ≡ done snapshot
      → any (has_id snapshot.content.id) t.rows ≡ false
      → (export created' updated' snapshot.content.id new_owner
          (import new_owner snapshot.content t).1).0
        ≡ done (reexported created' updated' snapshot.content)
  unfolding content_of
  export-import created updated created' updated' id owner_key new_owner s t snapshot h n =
      let (w, same) = exported_from created updated id owner_key s snapshot h in
      subst (Kept created' updated' new_owner t) (sym same)
        (export_imported created' updated' new_owner w t) n
