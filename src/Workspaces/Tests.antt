-- ===== src/Workspaces/Tests.antt =====
-- apps/api/src/modules/workspaces/workspaces.service.ts: the results at concrete tables.
use soroban_dev_console.Shared.{
  ℕ, ◌≡◌, refl, String, true, false, none, some, List, [], ◌∷◌, arith, Dict, lookup, select, ◌↔◌,
  ◌⊎◌,
}
use soroban_dev_console.Workspaces.{
  Workspace, Store, done, not_found, conflict, UpdateWorkspaceDto, update, remove, update_tags, get,
  update_where, write, written, dedupe, tag_fits, utf16_length,
}
use soroban_dev_console.Workspaces.Snapshots.{
  export, import, content_of, snapshot_of, export-import,
}
use soroban_dev_console.Workspaces.Replays.{is_empty, diff_arguments, diff_arguments-identical}
use soroban_dev_console.Workspaces.Histories.{Request, removes, tags_with, exports, run, step}
use soroban_dev_console.Workspaces.Validity.{IsConsistent, run-IsConsistent}
use soroban_dev_console.Workspaces.Owners.{is_owner, run-others}
use soroban_dev_console.Workspaces.Revisions.{update-once}
use soroban_dev_console.Workspaces.Races.{update-race}
use soroban_dev_console.Workspaces.Queries.{ListWorkspacesDto}

abbrev as_is {ℓ} : {A : Type ℓ} → A → A
as_is x = x

abbrev row : String → String → ℕ → Workspace
row id owner_key revision = record {
  id = id;
  owner_key = owner_key;
  name = "demo";
  description = none;
  selected_network = "testnet";
  archived = false;
  revision = revision;
  tags = [];
  saved_contracts = record { contract_id = "CA"; network = "testnet" } ∷ [];
  saved_interactions =
      record { id = "i1"; function_name = "mint"; network = "testnet"; arguments_json = none } ∷ [];
  artifacts = record { kind = "wasm"; name = "token"; network = "testnet"; hash = some "abc" } ∷ [];
}

abbrev store : Store
store = record { rows = row "w1" "ann" 3 ∷ row "w2" "bob" 0 ∷ []; audit = [] }

abbrev empty : Store
empty = record { rows = []; audit = [] }

store-IsConsistent : IsConsistent store.rows
store-IsConsistent = record {
  unique = (refl, (refl, tt));
  tags = ((omega arith, refl, tt), ((omega arith, refl, tt), tt));
}

abbrev named : String → UpdateWorkspaceDto
named name = record {
  name = some name;
  description = none;
  selected_network = none;
  archived = none;
  revision = some 3;
}

abbrev requests : List (String × Request)
requests =
    ("bob", tags_with "w2" ("a" ∷ "b" ∷ "a" ∷ []))
    ∷ ("bob", removes "w1")
    ∷ ("bob", exports "w2")
    ∷ []

abbrev quiet : List (String × Request)
quiet = ("ann", exports "w1") ∷ ("bob", removes "w2") ∷ []

update_tags_twice :
    (update_tags "w2" "bob" ("a" ∷ "b" ∷ "a" ∷ []) store).0
    ≡ done (record (row "w2" "bob" 0) { tags = "a" ∷ "b" ∷ [] })
unfolding update_tags get dedupe tag_fits utf16_length
update_tags_twice = refl

remove-other : (remove "w1" "bob" store).0 ≡ not_found
unfolding remove get
remove-other = refl

run-IsConsistent_example : IsConsistent (run as_is requests store).rows
run-IsConsistent_example = run-IsConsistent as_is requests store store-IsConsistent

run-others_example :
    select (is_owner "ann") (run as_is requests store).rows ≡ select (is_owner "ann") store.rows
run-others_example =
    run-others "ann" as_is requests store store-IsConsistent (refl, (refl, (refl, tt)))

update-once_example :
    let t =
      run as_is quiet (update as_is (λ x. run as_is quiet x) "w1" "ann" (named "new") store).1 in
    (update as_is as_is "w1" "ann" (named "newer") t ≡ (conflict, t))
    ⊎ (update as_is as_is "w1" "ann" (named "newer") t ≡ (not_found, t))
unfolding update get write update_where written run step remove export
update-once_example =
    update-once as_is "w1" quiet "ann" "ann" 3 (named "new") (named "newer") quiet as_is store
      (written as_is (named "new") (row "w1" "ann" 3)) store-IsConsistent.unique refl refl
      (tt, (refl, tt)) refl (tt, (refl, tt))

update-race_example :
    let other = update as_is (λ x. x) "w1" "ann" (named "two") in
    let (answer, t) = update as_is (λ x. (other x).1) "w1" "ann" (named "one") store in
    let both = written as_is (named "one") (written as_is (named "two") (row "w1" "ann" 3)) in
    ((other store).0 ≡ done (written as_is (named "two") (row "w1" "ann" 3)))
    × (answer ≡ done both)
    × (get "w1" "ann" t ≡ some both)
    × (both.revision ≡ 5)
unfolding get written
update-race_example =
    update-race as_is "w1" "ann" (named "one") (named "two") 3 store (row "w1" "ann" 3)
      store-IsConsistent refl refl refl refl

export-import_example :
    (export 8 9 "w1" "cid" (import as_is "cid" (content_of (row "w1" "ann" 3)) empty).1).0
    ≡ done (record {
      content = record (content_of (row "w1" "ann" 3)) { saved_call_ids = [] };
      created_at = 8;
      updated_at = 9;
    })
unfolding export get snapshot_of content_of
export-import_example =
    export-import as_is 3 4 8 9 "w1" "ann" "cid" store empty (snapshot_of 3 4 (row "w1" "ann" 3))
      refl refl

abbrev some_arguments : Dict String
some_arguments = ("to", "\"GA\"") ∷ ("amount", "5") ∷ []

abbrev other_arguments : Dict String
other_arguments = ("amount", "5") ∷ ("to", "\"GA\"") ∷ []

diff_arguments-identical_example :
    (is_empty (diff_arguments some_arguments other_arguments) ≡ true)
    ↔ ((key : String) → lookup key some_arguments ≡ lookup key other_arguments)
diff_arguments-identical_example = diff_arguments-identical some_arguments other_arguments

abbrev query : ListWorkspacesDto
query = record {
  skip = none;
  take = none;
  sort_by = none;
  sort_order = none;
  network = none;
  include_archived = false;
  tag = none;
}

abbrev unsorted : String → String → List Workspace → List Workspace
unsorted field order rows = rows
