-- ===== src/Shares/Forks.antt =====
-- apps/api/src/modules/shares/shares.service.ts: `fork`. `is_null` tells null from the other scalars,
-- `show` is the text of a value in a template, and the ids of the new rows are arguments.
use Prim.Native.String
use soroban_dev_console.Shared.{
  ℕ, ◌+◌, String, Bool, false, Option, none, some, List, [], ◌∷◌, map, find, any, ◌++◌,
  if◌then◌else◌,
}
use soroban_dev_console.Sanitizer.{Json, scalar, literal, array, object, Items, nil, cons}
use soroban_dev_console.Workspaces.{has_id, logged, Workspace, Contract, Interaction}
use soroban_dev_console.Shares.{
  Links, Outcome, done, not_found, forbidden, gone, conflict, internal_error, has_token, is_some,
  is_expired,
}
use soroban_dev_console.Shares.Payloads.{get_field}

-- A value of the snapshot that the database takes for a text, nothing where it is refused.
module _ {ℓ} {S : Type ℓ} (is_null : S → Bool) (show : Json S → String) where
  -- `snapshot.key ?? fallback`, nothing where that throws or is no text.
  abbrev pub defined : Option (Json S) → Option (Json S)
  defined none = none
  defined (some (scalar x)) = if is_null x then none else some (scalar x)
  defined (some v) = some v

  abbrev pub fields_of : Json S → Option (String → Option (Json S))
  fields_of (scalar x) = if is_null x then none else some (λ key. none)
  fields_of (object fields) = some (λ key. defined (get_field key fields))
  fields_of v = some (λ key. none)

-- The texts of a list, nothing if one of its values is no text.
unfoldable pub texts_of {ℓ} : {S : Type ℓ} → Items S → Option (List String)
texts_of nil = some []
texts_of (cons (literal s) items) = elim (texts_of items) [ none ↦ none | some ss ↦ some (s ∷ ss) ]
texts_of (cons v items) = none

abbrev pub network_of {ℓ} : {S : Type ℓ} → Option (Json S) → Option String
network_of none = some "testnet"
network_of (some (literal s)) = some s
network_of (some v) = none

abbrev pub contracts_of {ℓ} : {S : Type ℓ} → String → Option (Json S) → Option (List Contract)
contracts_of network (some (array items)) = elim (texts_of items) [
  | none ↦ none
  | some ids ↦ some (map (λ id. record { contract_id = id; network = network }) ids)
]
contracts_of network v = some []

-- One interaction for each saved call, with the next of the fresh ids.
unfoldable pub calls_of_items {ℓ} :
    {S : Type ℓ} → (ℕ → String) → ℕ → String → Items S → List Interaction
calls_of_items fresh n network nil = []
calls_of_items fresh n network (cons v items) =
    record { id = fresh n; function_name = "unknown"; network = network; arguments_json = some [] }
    ∷ calls_of_items fresh (n + 1) network items

abbrev pub calls_of {ℓ} : {S : Type ℓ} → (ℕ → String) → String → Option (Json S) → List Interaction
calls_of fresh network (some (array items)) = calls_of_items fresh 0 network items
calls_of fresh network v = []

module _ {ℓ} {S : Type ℓ} (is_null : S → Bool) (show : Json S → String) where
  abbrev pub name_of : Option String → Option (Json S) → String
  name_of (some name) v = name
  name_of none none = "Shared (fork)"
  name_of none (some v) = String.◌++◌ (show v) " (fork)"

  -- The row of the new workspace, nothing where the code throws or the database refuses a value.
  unfoldable pub forked : String → (ℕ → String) → String → Option String → Json S → Option Workspace
  forked id fresh owner_key name snapshot = elim (fields_of is_null show snapshot) [
    | none ↦ none
    | some get ↦ elim (network_of (get "selectedNetwork")) [
      | none ↦ none
      | some network ↦ elim (contracts_of network (get "contractIds")) [
        | none ↦ none
        | some contracts ↦ some (record {
          id = id;
          owner_key = owner_key;
          name = name_of name (get "name");
          description = none;
          selected_network = network;
          archived = false;
          revision = 0;
          tags = [];
          saved_contracts = contracts;
          saved_interactions = calls_of fresh network (get "savedCallIds");
          artifacts = [];
        })
      ]
    ]
  ]

  unfoldable pub fork :
      ℕ
      → String
      → (ℕ → String)
      → String
      → String
      → Option String
      → Links S
      → Outcome Workspace × Links S
  fork now id fresh token owner_key name l = elim (find (has_token token) l.shares) [
    | none ↦ (not_found, l)
    | some share ↦
        if is_some share.revoked_at
        then (forbidden, l)
        else if is_expired now share.expires_at
        then (gone, l)
        else elim (forked id fresh owner_key name share.snapshot_json) [
          | none ↦ (internal_error, l)
          | some w ↦ if any (has_id w.id) l.store.rows then (conflict, l) else (
            done w,
            record l {
              store = logged owner_key "share.forked" share.id (l.store.rows ++ w ∷ []) l.store;
            },
          )
        ]
  ]
