-- ===== src/Workspaces/Queries.antt =====
-- apps/api/src/modules/workspaces/workspaces.service.ts: `list`, `search` and `getAllTags`. The order
-- of the database is the parameter `sort`, of the field and the direction; `contains` is its test of
-- texts without regard to case, and `stringify` gives the column of the tags as text.
use Prim.Native.String
use text.Mathlib.Text.{find?}
use soroban_dev_console.Shared.{
  length, take, drop, String, ℕ, Bool, true, false, List, [], ◌∷◌, ◌++◌, Option, none, some, str_eq,
  select, not, ◌&&◌, ◌||◌,
}
use soroban_dev_console.Workspaces.{Workspace, Store, dedupe, or_else, truthy}

pub record ListWorkspacesDto : Type 0 where
  pub skip : Option ℕ
  pub take : Option ℕ
  pub sort_by : Option String
  pub sort_order : Option String
  pub network : Option String
  pub include_archived : Bool
  pub tag : Option String

pub record Page : Type 0 where
  pub rows : List Workspace
  pub total : ℕ
  pub skip : ℕ
  pub take : ℕ

abbrev pub given : Option String → Option String
given none = none
given (some s) = truthy s

-- A filter that applies when its value is given.
abbrev pub if_given : (String → Bool) → Option String → Bool
if_given p none = true
if_given p (some s) = p s

-- The tag in quotes.
abbrev pub quoted : String → String
quoted tag = String.◌++◌ "\"" (String.◌++◌ tag "\"")

abbrev pub includes : String → String → Bool
includes whole part = elim (find? whole part) [ none ↦ false | some i ↦ true ]

abbrev pub all_tags_of : List Workspace → List String
all_tags_of [] = []
all_tags_of (w ∷ ws) = w.tags ++ all_tags_of ws

module _ (stringify : List String → String) where
  unfoldable pub is_listed : String → ListWorkspacesDto → Workspace → Bool
  is_listed owner_key query w =
      str_eq w.owner_key owner_key
      && if_given (str_eq w.selected_network) (given query.network)
      && (query.include_archived || not w.archived)
      && if_given (λ tag. includes (stringify w.tags) (quoted tag)) (given query.tag)

module _ (contains : String → String → Bool) where
  unfoldable pub is_hit : String → String → Workspace → Bool
  is_hit owner_key q w =
      str_eq w.owner_key owner_key
      && (contains w.name q || elim w.description [ none ↦ false | some d ↦ contains d q ])

module _ (sort : String → String → List Workspace → List Workspace) where
  -- `findMany` and `count` of a filter.
  unfoldable pub page_of :
      (Workspace → Bool) → Option String → Option String → Option ℕ → Option ℕ → Store → Page
  page_of p sort_by sort_order offset limit s =
      let found = select p s.rows in
      record {
        rows = take (or_else limit 20) (
            drop (or_else offset 0)
              (sort (or_else sort_by "updatedAt") (or_else sort_order "desc") found));
        total = length found;
        skip = or_else offset 0;
        take = or_else limit 20;
      }

  module _ (stringify : List String → String) where
    unfoldable pub list : String → ListWorkspacesDto → Store → Page
    list owner_key query =
        page_of (is_listed stringify owner_key query) query.sort_by query.sort_order query.skip
          query.take

  module _ (trim : String → String) (contains : String → String → Bool) where
    -- The query's text, order and bounds.
    unfoldable pub search :
        String → String → Option String → Option String → Option ℕ → Option ℕ → Store → Page
    search owner_key q = page_of (is_hit contains owner_key (trim q))

-- The last sort is that of the host, by code units.
unfoldable pub get_all_tags : (List String → List String) → String → Store → List String
get_all_tags sort_texts owner_key s =
    sort_texts (dedupe [] (all_tags_of (select (λ w. str_eq w.owner_key owner_key) s.rows)))
