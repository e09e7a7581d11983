-- ===== src/Workspaces/Races.antt =====
-- apps/api/src/modules/workspaces/workspaces.service.ts, `update`: its result, and two updates whose
-- reads and writes interleave.

use soroban_dev_console.Shared.{
  ◌+◌, String, ℕ, false, List, [], ◌∷◌, some, arith, find, ◌≡◌, refl, eq_iff,
}
use soroban_dev_console.Workspaces.{
  Workspace, Store, has_id, is_owned, update_where, UpdateWorkspaceDto, update, write, written, get,
  done, is_stale,
}
use soroban_dev_console.Workspaces.Histories.{
  updates, step, step-Change, IsRewrite, update_fresh, written-IsRewrite,
}
use soroban_dev_console.Workspaces.Validity.{IsConsistent, UniqueIds, Change-IsConsistent}
use soroban_dev_console.Workspaces.Owners.{find-any}

module _ (id : String) (f : Workspace → Workspace) (r : IsRewrite f) where
  find-update_where :
      (owner_key : String) (ws : List Workspace) (w : Workspace)
      → find (is_owned id owner_key) ws ≡ some w
      → find (is_owned id owner_key) (update_where id f ws) ≡ some (f w)
  unfolding update_where
  find-update_where owner_key [] w h = absurd (ground (arith, h))
  find-update_where owner_key (v ∷ ws) w h =
      ground (arith, h, r.id_kept v, r.owner_kept v, find-update_where owner_key ws w)

  find_unique :
      (owner_key : String) (ws : List Workspace) (w : Workspace)
      → UniqueIds ws
      → find (is_owned id owner_key) ws ≡ some w
      → find (has_id id) (update_where id f ws) ≡ some (f w)
  unfolding update_where
  find_unique owner_key [] w u h = absurd (ground (arith, h))
  find_unique owner_key (v ∷ ws) w (n, u) h = ground (
    arith,
    h,
    eq_iff v.id id,
    r.id_kept v,
    find-any id owner_key ws w,
    find_unique owner_key ws w u,
  )

module _ (trim : String → String) (id owner_key : String) where
  write-done :
      (dto : UpdateWorkspaceDto) (s : Store) (w : Workspace)
      → UniqueIds s.rows
      → get id owner_key s ≡ some w
      → ((write trim id owner_key dto s).0 ≡ done (written trim dto w))
        × (get id owner_key (write trim id owner_key dto s).1 ≡ some (written trim dto w))
  unfolding write get
  write-done dto s w u found =
      let f = written trim dto in
      let r = written-IsRewrite trim dto in
      ground (
        arith,
        find_unique id f r owner_key s.rows w u found,
        find-update_where id f r owner_key s.rows w found,
      )

  update_result :
      (meanwhile : Store → Store) (dto : UpdateWorkspaceDto) (s : Store) (w v : Workspace)
      → get id owner_key s ≡ some w
      → is_stale dto.revision w.revision ≡ false
      → UniqueIds (meanwhile s).rows
      → get id owner_key (meanwhile s) ≡ some v
      → let (answer, t) = update trim meanwhile id owner_key dto s in
        (answer ≡ done (written trim dto v)) × (get id owner_key t ≡ some (written trim dto v))
  update_result meanwhile dto s w v found fresh u there =
      rw (update_fresh trim meanwhile id owner_key dto s w found fresh)
        (write-done dto (meanwhile s) v u there)

  -- An update by the owner that carries no revision number, or the current one, succeeds when no
  -- other request comes between: it gives the row as written, with the next revision, and the
  -- workspace is then found with that content. The ids of the table are unique.
  pub update-done :
      (dto : UpdateWorkspaceDto) (s : Store) (w : Workspace)
      → IsConsistent s.rows
      → get id owner_key s ≡ some w
      → is_stale dto.revision w.revision ≡ false
      → let (answer, t) = update trim (λ x. x) id owner_key dto s in
        (answer ≡ done (written trim dto w))
        × (get id owner_key t ≡ some (written trim dto w))
        × ((written trim dto w).revision ≡ w.revision + 1)
  unfolding written
  update-done dto s w valid found fresh =
      let (answer, there) = update_result (λ x. x) dto s w w found fresh valid.unique found in
      (answer, there, refl)

  updated-IsConsistent :
      (dto : UpdateWorkspaceDto) (s : Store)
      → IsConsistent s.rows
      → IsConsistent (update trim (λ x. x) id owner_key dto s).1.rows
  unfolding step
  updated-IsConsistent dto s valid =
      Change-IsConsistent owner_key (updates id dto) s.rows _ valid
        (step-Change trim owner_key (updates id dto) s)

  -- Two updates that carry the same, current revision number both succeed when the one is handled
  -- between the read and the write of the other: the workspace then has the fields of the later
  -- write over those of the earlier one, and its revision is raised by two. The ids are unique.
  pub update-race :
      (dto dto' : UpdateWorkspaceDto) (q : ℕ) (s : Store) (w : Workspace)
      → IsConsistent s.rows
      → get id owner_key s ≡ some w
      → w.revision ≡ q
      → dto.revision ≡ some q
      → dto'.revision ≡ some q
      → let other = update trim (λ x. x) id owner_key dto' in
        let (answer, t) = update trim (λ x. (other x).1) id owner_key dto s in
        let both = written trim dto (written trim dto' w) in
        ((other s).0 ≡ done (written trim dto' w))
        × (answer ≡ done both)
        × (get id owner_key t ≡ some both)
        × (both.revision ≡ q + 2)
  unfolding written
  update-race dto dto' q s w valid found now given given' =
      let (first, there) =
        update_result (λ x. x) dto' s w w found (ground (arith, given', now)) valid.unique found in
      let after = (update trim (λ x. x) id owner_key dto' s).1 in
      let (second, last) =
        update_result (λ x. (update trim (λ y. y) id owner_key dto' x).1) dto s w
          (written trim dto' w) found (ground (arith, given, now))
          (updated-IsConsistent dto' s valid).unique there in
      (first, second, last, omega (arith, now))
