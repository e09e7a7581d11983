-- ===== src/Workspaces.antt =====
-- apps/api/src/modules/workspaces/workspaces.service.ts: the table of workspaces and its service.
-- A table is a list of rows; `trim` is that of JavaScript. What other requests do between the read
-- and the write of `update` is its argument `meanwhile`; every other operation runs on its own.
-- Times, shares and the events that repeat the audit log are left out.
pub mod Snapshots
pub mod Replays
pub mod Queries
pub mod Pages
pub mod Histories
pub mod Revisions
pub mod Races
pub mod Validity
pub mod Owners
mod Tests
use soroban_dev_console.Shared.{
  ℕ, zero, suc, ◌+◌, String, Bool, true, false, not, ◌&&◌, ◌||◌, Option, none, some, List, [], ◌∷◌,
  ◌++◌, map, ltb, ◌==◌, length, select, find, any, all, has, str_eq, Dict, if◌then◌else◌,
}
use Prim.Native.String
use Prim.Native.Char.{Char, code}

pub record Contract : Type 0 where
  pub contract_id : String
  pub network : String

-- The arguments are texts, those that `JSON.stringify` gives.
pub record Interaction : Type 0 where
  pub id : String
  pub function_name : String
  pub network : String
  pub arguments_json : Option (Dict String)

pub record Artifact : Type 0 where
  pub kind : String
  pub name : String
  pub network : String
  pub hash : Option String

pub record Workspace : Type 0 where
  pub id : String
  pub owner_key : String
  pub name : String
  pub description : Option String
  pub selected_network : String
  pub archived : Bool
  pub revision : ℕ
  pub tags : List String
  pub saved_contracts : List Contract
  pub saved_interactions : List Interaction
  pub artifacts : List Artifact

pub record AuditEntry : Type 0 where
  pub actor : String
  pub action : String
  pub resource_id : String

pub record Store : Type 0 where
  pub rows : List Workspace
  pub audit : List AuditEntry

-- The value, or the exception of this kind.
pub data Answer {ℓ} (A : Type ℓ) : Type ℓ where
  done : A → Answer A
  not_found conflict bad_request : Answer A

pub record ContractDto : Type 0 where
  pub contract_id : String
  pub network : Option String

-- The id is the one that the database gives to the row of the interaction.
pub record InteractionDto : Type 0 where
  pub id : String
  pub function_name : String
  pub arguments_json : Option (Dict String)

pub record CreateWorkspaceDto : Type 0 where
  pub name : String
  pub description : Option String
  pub selected_network : Option String
  pub contracts : Option (List ContractDto)
  pub interactions : Option (List InteractionDto)

pub record UpdateWorkspaceDto : Type 0 where
  pub name : Option String
  pub description : Option String
  pub selected_network : Option String
  pub archived : Option Bool
  pub revision : Option ℕ

abbrev pub has_id : String → Workspace → Bool
has_id id w = str_eq w.id id

abbrev pub is_owned : String → String → Workspace → Bool
is_owned id owner_key w = has_id id w && str_eq w.owner_key owner_key

-- `a ?? b` and, for texts, `a || b`.
abbrev pub or_else {ℓ} : {A : Type ℓ} → Option A → A → A
or_else none x = x
or_else (some y) x = y

abbrev pub truthy : String → Option String
truthy s = if str_eq s "" then none else some s

abbrev pub or_text : Option String → String → String
or_text none x = x
or_text (some s) x = or_else (truthy s) x

-- `repository.update({ where: { id }, data })`
unfoldable pub update_where : String → (Workspace → Workspace) → List Workspace → List Workspace
update_where id f [] = []
update_where id f (w ∷ ws) = (if has_id id w then f w else w) ∷ update_where id f ws

abbrev pub logged : String → String → String → List Workspace → Store → Store
logged actor action id rows s = record {
  rows = rows;
  audit = s.audit ++ record { actor = actor; action = action; resource_id = id } ∷ [];
}

unfoldable pub get : String → String → Store → Option Workspace
get id owner_key s = find (is_owned id owner_key) s.rows

-- `repository.create`: a row with a known id is refused by the database.
unfoldable pub insert_row : String → String → Workspace → Store → Answer Workspace × Store
insert_row actor action w s =
    if any (has_id w.id) s.rows
    then (conflict, s)
    else (done w, logged actor action w.id (s.rows ++ w ∷ []) s)

unfoldable pub contracts_of : String → List ContractDto → List Contract
contracts_of network =
    map (λ c. record { contract_id = c.contract_id; network = or_text c.network network })

unfoldable pub interactions_of : String → List InteractionDto → List Interaction
interactions_of network = map (λ i. record {
  id = i.id;
  function_name = i.function_name;
  network = network;
  arguments_json = some (or_else i.arguments_json []);
})

-- `[...new Set(tags)]`
unfoldable pub dedupe : List String → List String → List String
dedupe seen [] = []
dedupe seen (t ∷ ts) =
    let rest = dedupe seen ts in
    let rest' = dedupe (t ∷ seen) ts in if has t seen then rest else t ∷ rest'

abbrev pub max_tags : ℕ
max_tags = 20

abbrev pub max_tag_length : ℕ
max_tag_length = 50

-- The length of a text in units of UTF-16.
unfoldable pub utf16_length : String → ℕ
utf16_length String.[] = 0
utf16_length (String.◌∷◌ c s) = (if ltb 65535 (code c) then 2 else 1) + utf16_length s

unfoldable pub tag_fits : String → Bool
tag_fits tag = not (ltb max_tag_length (utf16_length tag))

unfoldable pub update_tags : String → String → List String → Store → Answer Workspace × Store
update_tags id owner_key tags s =
    let deduped = dedupe [] tags in
    let rows = update_where id (λ w. record w { tags = deduped }) s.rows in
    elim (get id owner_key s) [
      | none ↦ (not_found, s)
      | some current ↦
          if ltb max_tags (length deduped) || not (all tag_fits deduped)
          then (bad_request, s)
          else (
            done (record current { tags = deduped }),
            logged owner_key "workspace.tags_updated" id rows s,
          )
    ]

unfoldable pub remove : String → String → Store → Answer {0} Unit × Store
remove id owner_key s = elim (get id owner_key s) [
  | none ↦ (not_found, s)
  | some current ↦
      (done tt, logged owner_key "workspace.deleted" id (select (λ w. not (has_id id w)) s.rows) s)
]

abbrev pub is_stale : Option ℕ → ℕ → Bool
is_stale none actual = false
is_stale (some expected) actual = not (expected == actual)

module _ (trim : String → String) where
  unfoldable pub create : String → String → CreateWorkspaceDto → Store → Answer Workspace × Store
  create fresh owner_key dto =
      let network = or_else dto.selected_network "testnet" in
      insert_row owner_key "workspace.created" (record {
        id = fresh;
        owner_key = owner_key;
        name = trim dto.name;
        description = elim dto.description [ none ↦ none | some d ↦ truthy (trim d) ];
        selected_network = network;
        archived = false;
        revision = 0;
        tags = [];
        saved_contracts = contracts_of network (or_else dto.contracts []);
        saved_interactions = interactions_of network (or_else dto.interactions []);
        artifacts = [];
      })

  unfoldable pub written : UpdateWorkspaceDto → Workspace → Workspace
  written dto w = record w {
    name = elim dto.name [ none ↦ w.name | some n ↦ trim n ];
    description = elim dto.description [ none ↦ w.description | some d ↦ truthy (trim d) ];
    selected_network = or_else dto.selected_network w.selected_network;
    archived = or_else dto.archived w.archived;
    revision = w.revision + 1;
  }

  -- The write, after the checks.
  unfoldable pub write : String → String → UpdateWorkspaceDto → Store → Answer Workspace × Store
  write id owner_key dto s =
      let rows = update_where id (written dto) s.rows in
      elim (find (has_id id) rows) [
        | none ↦ (not_found, s)
        | some w ↦ (done w, logged owner_key "workspace.updated" id rows s)
      ]

  unfoldable pub update :
      (Store → Store) → String → String → UpdateWorkspaceDto → Store → Answer Workspace × Store
  update meanwhile id owner_key dto s = elim (get id owner_key s) [
    | none ↦ (not_found, s)
    | some current ↦
        if is_stale dto.revision current.revision
        then (conflict, s)
        else write id owner_key dto (meanwhile s)
  ]
