-- ===== src/Workspaces/Histories.antt =====
-- apps/api/src/modules/workspaces/workspaces.service.ts: histories of requests, one after the other.
use soroban_dev_console.Shared.{
  ◌≤◌, ◌==◌, has, ltb, length, all, Bool-cases, Option-cases, inl, inr, String, true, false, List,
  [], ◌∷◌, ◌++◌, some, arith, any, select, find, ◌≡◌, refl, ap, not, ◌||◌, eq_iff,
}
use soroban_dev_console.Workspaces.{
  max_tags, tag_fits, dedupe, get, is_owned, write, is_stale, Workspace, Store, CreateWorkspaceDto,
  UpdateWorkspaceDto, create, update, remove, update_tags, conflict, has_id, update_where,
  insert_row, written,
}
use soroban_dev_console.Workspaces.Snapshots.{
  ImportWorkspaceDto, import, export, imported, supported_import_versions,
}

-- A request of an owner; the first argument of `creates` is the id that the database gives.
pub data Request : Type 0 where
  creates : String → CreateWorkspaceDto → Request
  updates : String → UpdateWorkspaceDto → Request
  removes : String → Request
  tags_with : String → List String → Request
  imports : ImportWorkspaceDto → Request
  exports : String → Request

module _ (trim : String → String) where
  unfoldable pub step : String → Request → Store → Store
  step owner_key (creates fresh dto) s = (create trim fresh owner_key dto s).1
  step owner_key (updates id dto) s = (update trim (λ t. t) id owner_key dto s).1
  step owner_key (removes id) s = (remove id owner_key s).1
  step owner_key (tags_with id tags) s = (update_tags id owner_key tags s).1
  step owner_key (imports dto) s = (import trim owner_key dto s).1
  step owner_key (exports id) s = (export 0 0 id owner_key s).1

  unfoldable pub run : List (String × Request) → Store → Store
  run [] s = s
  run ((owner_key, request) ∷ later) s = run later (step owner_key request s)

abbrev pub Distinct : List String → Type 0
Distinct [] = Unit
Distinct (t ∷ ts) = (has t ts ≡ false) × Distinct ts

-- Tags that the limits allow.
abbrev pub TagsFit : List String → Type 0
TagsFit tags = (length tags ≤ max_tags) × (all tag_fits tags ≡ true) × Distinct tags

-- What a write leaves of a row.
pub record IsRewrite (f : Workspace → Workspace) : Type 0 where
  pub id_kept : (w : Workspace) → (f w).id ≡ w.id
  pub owner_kept : (w : Workspace) → (f w).owner_key ≡ w.owner_key
  pub revision_grows : (w : Workspace) → w.revision ≤ (f w).revision
  pub tags_fit : (w : Workspace) → TagsFit w.tags → TagsFit (f w).tags

-- What a request of an owner can do to the rows.
pub data Change (owner_key : String) (request : Request) (before after : List Workspace)
    : Type 0 where
  kept : after ≡ before → Change owner_key request before after
  added :
      (w : Workspace)
      → w.owner_key ≡ owner_key
      → w.tags ≡ []
      → any (has_id w.id) before ≡ false
      → after ≡ before ++ w ∷ []
      → Change owner_key request before after
  rewritten :
      (id : String) (f : Workspace → Workspace) (current : Workspace)
      → find (is_owned id owner_key) before ≡ some current
      → IsRewrite f
      → after ≡ update_where id f before
      → Change owner_key request before after
  dropped :
      (id : String) (current : Workspace)
      → request ≡ removes id
      → find (is_owned id owner_key) before ≡ some current
      → after ≡ select (λ w. not (has_id id w)) before
      → Change owner_key request before after

dedupe-seen :
    (k : String) (seen ts : List String) → has k seen ≡ true → has k (dedupe seen ts) ≡ false
unfolding dedupe
dedupe-seen k seen [] h = refl
dedupe-seen k seen (t ∷ ts) h =
    ground (arith, eq_iff t k, eq_iff k t, dedupe-seen k seen ts, dedupe-seen k (t ∷ seen) ts)

dedupe-Distinct : (seen ts : List String) → Distinct (dedupe seen ts)
unfolding dedupe
dedupe-Distinct seen [] = tt
dedupe-Distinct seen (t ∷ ts) = ground (
  arith,
  eq_iff t t,
  dedupe-seen t (t ∷ seen) ts,
  dedupe-Distinct seen ts,
  dedupe-Distinct (t ∷ seen) ts,
)

insert_row-Change :
    (request : Request) (owner_key action : String) (w : Workspace) (s : Store)
    → w.owner_key ≡ owner_key
    → w.tags ≡ []
    → Change owner_key request s.rows (insert_row owner_key action w s).1.rows
unfolding insert_row
insert_row-Change request owner_key action w s o t = elim (Bool-cases (any (has_id w.id) s.rows)) [
  | inl taken ↦ kept (rw taken refl)
  | inr free ↦ added w o t free (rw free refl)
]

update_tags-Change :
    (request : Request) (id owner_key : String) (tags : List String) (s : Store)
    → Change owner_key request s.rows (update_tags id owner_key tags s).1.rows
unfolding update_tags get
update_tags-Change request id owner_key tags s = elim (Option-cases (get id owner_key s)) [
  | inl missing ↦ kept (ground (arith, missing))
  | inr (w, found) ↦
      elim (Bool-cases
        (ltb max_tags (length (dedupe [] tags)) || not (all tag_fits (dedupe [] tags)))) [
          | inl refused ↦ kept (ground (arith, found, refused))
          | inr fine ↦
              rewritten id (λ w. record w { tags = dedupe [] tags }) w found
                (record {
                  id_kept = λ w. refl;
                  owner_kept = λ w. refl;
                  revision_grows = λ w. omega arith;
                  tags_fit = λ w h. (ground arith, ground arith, dedupe-Distinct [] tags);
                })
                (ground (arith, found, fine))
        ]
]

remove-Change :
    (id owner_key : String) (s : Store)
    → Change owner_key (removes id) s.rows (remove id owner_key s).1.rows
unfolding remove get
remove-Change id owner_key s = elim (Option-cases (get id owner_key s)) [
  | inl missing ↦ kept (ground (arith, missing))
  | inr (w, found) ↦ dropped id w refl found (ground (arith, found))
]

module _ (trim : String → String) where
  pub written-IsRewrite : (dto : UpdateWorkspaceDto) → IsRewrite (written trim dto)
  unfolding written
  written-IsRewrite dto = record {
    id_kept = λ w. refl;
    owner_kept = λ w. refl;
    revision_grows = λ w. omega arith;
    tags_fit = λ w h. h;
  }

  write-Change :
      (request : Request) (id owner_key : String) (dto : UpdateWorkspaceDto) (s : Store)
      (w : Workspace)
      → get id owner_key s ≡ some w
      → Change owner_key request s.rows (write trim id owner_key dto s).1.rows
  unfolding write get
  write-Change request id owner_key dto s w found =
      elim (Option-cases (find (has_id id) (update_where id (written trim dto) s.rows))) [
        | inl missing ↦ kept (ground (arith, missing))
        | inr (v, there) ↦
            rewritten id (written trim dto) w found (written-IsRewrite dto) (ground (arith, there))
      ]

  pub update_fresh :
      (meanwhile : Store → Store) (id owner_key : String) (dto : UpdateWorkspaceDto) (s : Store)
      (w : Workspace)
      → get id owner_key s ≡ some w
      → is_stale dto.revision w.revision ≡ false
      → update trim meanwhile id owner_key dto s ≡ write trim id owner_key dto (meanwhile s)
  unfolding update
  update_fresh meanwhile id owner_key dto s w found fresh = rw (update, found, fresh) refl

  pub update_refused :
      (meanwhile : Store → Store) (id owner_key : String) (dto : UpdateWorkspaceDto) (s : Store)
      (w : Workspace)
      → get id owner_key s ≡ some w
      → is_stale dto.revision w.revision ≡ true
      → update trim meanwhile id owner_key dto s ≡ (conflict, s)
  unfolding update
  update_refused meanwhile id owner_key dto s w found stale = rw (update, found, stale) refl

  update-Change :
      (request : Request) (id owner_key : String) (dto : UpdateWorkspaceDto) (s : Store)
      → Change owner_key request s.rows (update trim (λ t. t) id owner_key dto s).1.rows
  unfolding update
  update-Change request id owner_key dto s = elim (Option-cases (get id owner_key s)) [
    | inl missing ↦ kept (ground (arith, missing))
    | inr (w, found) ↦ elim (Bool-cases (is_stale dto.revision w.revision)) [
      | inl stale ↦
          kept (ap (λ a. a.1.rows) (update_refused (λ t. t) id owner_key dto s w found stale))
      | inr fresh ↦
          rw (update_fresh (λ t. t) id owner_key dto s w found fresh)
            (write-Change request id owner_key dto s w found)
    ]
  ]

  import-Change :
      (request : Request) (owner_key : String) (dto : ImportWorkspaceDto) (s : Store)
      → Change owner_key request s.rows (import trim owner_key dto s).1.rows
  unfolding import imported
  import-Change request owner_key dto s =
      elim (Bool-cases (any (λ v. v == dto.version) supported_import_versions)) [
        | inl known ↦ rw known (
            insert_row-Change request owner_key "workspace.imported" (imported trim owner_key dto) s
              refl refl)
        | inr unknown ↦ kept (rw unknown refl)
      ]

  export-Change :
      (request : Request) (id owner_key : String) (s : Store)
      → Change owner_key request s.rows (export 0 0 id owner_key s).1.rows
  unfolding export
  export-Change request id owner_key s = elim (Option-cases (get id owner_key s)) [
    | inl missing ↦ kept (ground (arith, missing))
    | inr (w, found) ↦ kept (ground (arith, found))
  ]

  pub step-Change :
      (owner_key : String) (r : Request) (s : Store)
      → Change owner_key r s.rows (step trim owner_key r s).rows
  unfolding step create
  step-Change owner_key (creates fresh dto) s =
      insert_row-Change _ owner_key "workspace.created" _ s refl refl
  step-Change owner_key (updates id dto) s = update-Change _ id owner_key dto s
  step-Change owner_key (removes id) s = remove-Change id owner_key s
  step-Change owner_key (tags_with id tags) s = update_tags-Change _ id owner_key tags s
  step-Change owner_key (imports dto) s = import-Change _ owner_key dto s
  step-Change owner_key (exports id) s = export-Change _ id owner_key s
