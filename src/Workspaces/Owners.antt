-- ===== src/Workspaces/Owners.antt =====
-- apps/api/src/modules/workspaces/workspaces.service.ts: the rows of an owner and the others' requests.
use soroban_dev_console.Shared.{
  Bool-cases, inl, inr, String, Bool, true, false, List, [], ◌∷◌, ◌++◌, some, str_eq, arith, any,
  select, find, ◌≡◌, ◌∙◌, refl, sym, not, All, eq_iff,
}
use mathlib.Core.Path.{subst}
use soroban_dev_console.Workspaces.{Workspace, Store, has_id, is_owned, update_where}
use soroban_dev_console.Workspaces.Histories.{
  Request, run, step, step-Change, Change, kept, added, rewritten, dropped, IsRewrite,
}
use soroban_dev_console.Workspaces.Validity.{IsConsistent, UniqueIds, Change-IsConsistent}

pub find-any :
    (id owner_key : String) (ws : List Workspace) (c : Workspace)
    → find (is_owned id owner_key) ws ≡ some c
    → any (has_id id) ws ≡ true
find-any id owner_key [] c h = absurd (ground (arith, h))
find-any id owner_key (w ∷ ws) c h = ground (arith, find-any id owner_key ws c)

none_here :
    (id : String) (P : Workspace → Type 0) (ws : List Workspace)
    → any (has_id id) ws ≡ false
    → All (λ w. has_id id w ≡ true → P w) ws
none_here id P [] h = tt
none_here id P (w ∷ ws) h = ((λ e. absurd (ground arith)), none_here id P ws (ground arith))

-- The row that is found is the only one with its id.
pub find-only :
    (id owner_key : String) (P : Workspace → Type 0) (ws : List Workspace) (c : Workspace)
    → UniqueIds ws
    → find (is_owned id owner_key) ws ≡ some c
    → (is_owned id owner_key c ≡ true → P c)
    → All (λ w. has_id id w ≡ true → P w) ws
find-only id owner_key P [] c u h p = tt
find-only id owner_key P (w ∷ ws) c (n, u) h p = elim (Bool-cases (is_owned id owner_key w)) [
  | inl mine ↦
      let same : w ≡ c = ground (arith, h) in
      (
        (λ e. subst P (sym same) (p (ground (arith, same)))),
        none_here id P ws (ground (arith, eq_iff w.id id)),
      )
  | inr other ↦
      let later : find (is_owned id owner_key) ws ≡ some c = ground (arith, h) in
      (
        (λ e. absurd (ground (arith, eq_iff w.id id, find-any id owner_key ws c later))),
        find-only id owner_key P ws c u later p,
      )
]

pub find-holds :
    (p : Workspace → Bool) (ws : List Workspace) (c : Workspace) → find p ws ≡ some c → p c ≡ true
find-holds p [] c h = absurd (ground (arith, h))
find-holds p (w ∷ ws) c h =
    let head : w ≡ c → p w ≡ true → p c ≡ true = λ same e. subst (λ x. p x ≡ true) same e in
    ground (arith, find-holds p ws c, head)

abbrev pub is_owner : String → Workspace → Bool
is_owner owner_key w = str_eq w.owner_key owner_key

module _ (k : String) where
  select_added :
      (w : Workspace) (ws : List Workspace)
      → is_owner k w ≡ false
      → select (is_owner k) (ws ++ w ∷ []) ≡ select (is_owner k) ws
  select_added w [] h = ground arith
  select_added w (v ∷ ws) h = ground (arith, select_added w ws)

  select_rewritten :
      (id : String) (f : Workspace → Workspace) (ws : List Workspace)
      → IsRewrite f
      → All (λ w. has_id id w ≡ true → is_owner k w ≡ false) ws
      → select (is_owner k) (update_where id f ws) ≡ select (is_owner k) ws
  unfolding update_where
  select_rewritten id f [] r h = refl
  select_rewritten id f (w ∷ ws) r (p, h) =
      ground (arith, p, r.owner_kept w, select_rewritten id f ws r h)

  select_dropped :
      (id : String) (ws : List Workspace)
      → All (λ w. has_id id w ≡ true → is_owner k w ≡ false) ws
      → select (is_owner k) (select (λ w. not (has_id id w)) ws) ≡ select (is_owner k) ws
  select_dropped id [] h = refl
  select_dropped id (w ∷ ws) (p, h) = ground (arith, p, select_dropped id ws h)

  others_only :
      (id owner_key : String) (ws : List Workspace) (c : Workspace)
      → UniqueIds ws
      → str_eq owner_key k ≡ false
      → find (is_owned id owner_key) ws ≡ some c
      → All (λ w. has_id id w ≡ true → is_owner k w ≡ false) ws
  others_only id owner_key ws c u n found =
      find-only id owner_key (λ w. is_owner k w ≡ false) ws c u found
        (λ e. ground (arith, e, eq_iff c.owner_key owner_key, eq_iff c.owner_key k))

  Change-others :
      (owner_key : String) (request : Request) (before after : List Workspace)
      → UniqueIds before
      → str_eq owner_key k ≡ false
      → Change owner_key request before after
      → select (is_owner k) after ≡ select (is_owner k) before
  Change-others owner_key request before after u n (kept e) = rw e refl
  Change-others owner_key request before after u n (added w o t free e) =
      rw e (select_added w before (rw o n))
  Change-others owner_key request before after u n (rewritten id f c found r e) =
      rw e (select_rewritten id f before r (others_only id owner_key before c u n found))
  Change-others owner_key request before after u n (dropped id c which found e) =
      rw e (select_dropped id before (others_only id owner_key before c u n found))

  module _ (trim : String → String) where
    -- No history of requests of other owners changes, adds or removes a workspace of an owner, when
    -- the ids of the table were unique to begin with.
    pub run-others :
        (requests : List (String × Request)) (s : Store)
        → IsConsistent s.rows
        → All (λ r. str_eq r.0 k ≡ false) requests
        → select (is_owner k) (run trim requests s).rows ≡ select (is_owner k) s.rows
    unfolding run
    run-others [] s v h = refl
    run-others ((owner_key, request) ∷ later) s v (n, h) =
        let change = step-Change trim owner_key request s in
        run-others later (step trim owner_key request s)
          (Change-IsConsistent owner_key request s.rows _ v change) h
        ∙ Change-others owner_key request s.rows _ v.unique n change
