-- ===== src/Shares/Listing.antt =====
-- apps/api/src/modules/shares/shares.service.ts: `stats` and `listForWorkspace`.
use soroban_dev_console.Shared.{
  ℕ, String, not, Option, none, some, List, [], ◌∷◌, map, length, select, find, take, drop, str_eq,
  if◌then◌else◌,
}
use soroban_dev_console.Workspaces.{has_id, or_else}
use soroban_dev_console.Shares.{
  Share, AccessLog, Links, Outcome, done, not_found, forbidden, has_token, is_owned_by,
}

-- The most recent 50 accesses; the logs stand in the order of their times, the oldest first.
abbrev pub newest_first {ℓ} : {A : Type ℓ} → List A → List A → List A
newest_first [] out = out
newest_first (x ∷ xs) out = newest_first xs (x ∷ out)

-- The time of the last access of a share; the logs stand in the order of their times.
abbrev pub last_accessed : String → List AccessLog → Option ℕ
last_accessed id [] = none
last_accessed id (log ∷ logs) = elim (last_accessed id logs) [
  | some t ↦ some t
  | none ↦ if str_eq log.share_id id then some log.accessed_at else none
]

module _ {ℓ} {S : Type ℓ} where
  unfoldable pub stats : String → String → Links S → Outcome (String × ℕ × List AccessLog)
  stats token owner_key l = elim (find (has_token token) l.shares) [
    | none ↦ not_found
    | some share ↦
        if not (is_owned_by owner_key (find (has_id share.workspace_id) l.store.rows))
        then forbidden
        else done (
          share.id,
          share.view_count,
          take 50 (newest_first (select (λ log. str_eq log.share_id share.id) l.access_logs) []),
        )
  ]

  -- The field and the direction, the offset and the number of rows; `sort` is the database's order.
  unfoldable pub list_for_workspace :
      (String → String → List (Share S) → List (Share S))
      → String
      → String
      → Option String
      → Option String
      → Option ℕ
      → Option ℕ
      → Links S
      → Outcome (List (Share S × Option ℕ) × ℕ)
  list_for_workspace sort workspace_id owner_key sort_by sort_order skip limit l =
      let found = select (λ s. str_eq s.workspace_id workspace_id) l.shares in
      let ordered = sort (or_else sort_by "createdAt") (or_else sort_order "desc") found in
      elim (find (has_id workspace_id) l.store.rows) [
        | none ↦ not_found
        | some w ↦
            if not (str_eq w.owner_key owner_key)
            then forbidden
            else done (
              map (λ s. (s, last_accessed s.id l.access_logs))
                  (take (or_else limit 20) (drop (or_else skip 0) ordered)),
              length found,
            )
      ]
