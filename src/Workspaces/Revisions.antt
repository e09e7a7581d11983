-- ===== src/Workspaces/Revisions.antt =====
-- apps/api/src/modules/workspaces/workspaces.service.ts, `update`: what the revision number refuses,
-- and what it does not.
use mathlib.Core.Path.{subst}
use soroban_dev_console.Shared.{
  ◌≤◌, ◌+◌, ap, Bool-cases, Option-cases, inl, inr, String, ℕ, true, false, List, [], ◌∷◌, ◌++◌,
  some, str_eq, arith, any, select, find, ◌≡◌, ◌∙◌, ◌⊎◌, sym, not, All, eq_iff, All-append,
  All-select,
}
use soroban_dev_console.Workspaces.{
  Workspace, Store, has_id, is_owned, update_where, UpdateWorkspaceDto, update, write, written, get,
  done, conflict, not_found, is_stale,
}
use soroban_dev_console.Workspaces.Histories.{
  Request, removes, run, step, step-Change, Change, kept, added, rewritten, dropped, IsRewrite,
  update_fresh, update_refused, written-IsRewrite,
}
use soroban_dev_console.Workspaces.Validity.{UniqueIds, any_rewritten}
use soroban_dev_console.Workspaces.Owners.{find-only, find-any}

-- The request is not the removal of this workspace.
abbrev pub Keeps : String → Request → Type 0
Keeps id (removes j) = str_eq j id ≡ false
Keeps id request = Unit

module _ (id : String) (r : ℕ) where
  -- The workspace is there, with a revision of at least `r`.
  abbrev Later : Workspace → Type 0
  Later w = has_id id w ≡ true → r ≤ w.revision

  record IsPast (rows : List Workspace) : Type 0 where
    there : any (has_id id) rows ≡ true
    later : All Later rows

  any_kept :
      (ws more : List Workspace) → any (has_id id) ws ≡ true → any (has_id id) (ws ++ more) ≡ true
  any_kept [] more h = absurd (ground (arith, h))
  any_kept (w ∷ ws) more h = ground (arith, any_kept ws more)

  any_other :
      (w : Workspace) (ws : List Workspace)
      → any (has_id w.id) ws ≡ false
      → any (has_id id) ws ≡ true
      → has_id id w ≡ false
  any_other w ws n h = elim (Bool-cases (has_id id w)) [
    | inl same ↦
        let n' : any (has_id id) ws ≡ false =
          subst (λ x. any (has_id x) ws ≡ false) ((eq_iff w.id id).0 same) n in
        absurd (ground (arith, n', h))
    | inr other ↦ other
  ]

  later_rewritten :
      (j : String) (f : Workspace → Workspace) (ws : List Workspace)
      → IsRewrite f
      → All Later ws
      → All Later (update_where j f ws)
  unfolding update_where
  later_rewritten j f [] rewrite h = tt
  later_rewritten j f (w ∷ ws) rewrite (p, h) = elim (Bool-cases (has_id j w)) [
    | inl here ↦ rw here (
      (λ e. omega (
        arith,
        rewrite.revision_grows w,
        p (ap (λ x. str_eq x id) (sym (rewrite.id_kept w)) ∙ e),
      )),
      later_rewritten j f ws rewrite h,
    )
    | inr other ↦ rw other (p, later_rewritten j f ws rewrite h)
  ]

  any_dropped :
      (j : String) (ws : List Workspace)
      → str_eq j id ≡ false
      → any (has_id id) ws ≡ true
      → any (has_id id) (select (λ w. not (has_id j w)) ws) ≡ true
  any_dropped j [] n h = absurd (ground (arith, h))
  any_dropped j (w ∷ ws) n h =
      ground (arith, eq_iff w.id j, eq_iff w.id id, eq_iff j id, any_dropped j ws n)

  Change-IsPast :
      (owner_key : String) (request : Request) (before after : List Workspace)
      → Keeps id request
      → Change owner_key request before after
      → IsPast before
      → IsPast after
  Change-IsPast owner_key request before after k (kept e) past = rw e past
  Change-IsPast owner_key request before after k (added w o t free e) past = rw e (record {
    there = any_kept before (w ∷ []) past.there;
    later =
        All-append Later before (w ∷ []) past.later
          ((λ h. absurd (ground (arith, any_other w before free past.there))), tt);
  })
  Change-IsPast owner_key request before after k (rewritten j f c found rewrite e) past =
      rw e (record {
        there = rw (any_rewritten j f rewrite id before) past.there;
        later = later_rewritten j f before rewrite past.later;
      })
  Change-IsPast owner_key request before after k (dropped j c which found e) past = rw e (record {
    there = any_dropped j before (subst (Keeps id) which k) past.there;
    later = All-select Later _ before past.later;
  })

  run-IsPast :
      (trim : String → String) (requests : List (String × Request)) (s : Store)
      → All (λ q. Keeps id q.1) requests
      → IsPast s.rows
      → IsPast (run trim requests s).rows
  unfolding run
  run-IsPast trim [] s h past = past
  run-IsPast trim ((owner_key, request) ∷ later) s (k, h) past =
      run-IsPast trim later (step trim owner_key request s) h
        (Change-IsPast owner_key request s.rows _ k (step-Change trim owner_key request s) past)

  later_found :
      (owner_key : String) (ws : List Workspace) (c : Workspace)
      → All Later ws
      → find (is_owned id owner_key) ws ≡ some c
      → r ≤ c.revision
  later_found owner_key [] c h e = absurd (ground (arith, e))
  later_found owner_key (w ∷ ws) c (p, h) e = elim (Bool-cases (is_owned id owner_key w)) [
    | inl mine ↦
        let same : w ≡ c = ground (arith, e) in subst (λ x. r ≤ x.revision) same (p (ground arith))
    | inr other ↦ later_found owner_key ws c h (ground (arith, e))
  ]

module _ (trim : String → String) (id : String) where
  written-Later :
      (q : ℕ) (dto : UpdateWorkspaceDto) (ws : List Workspace)
      → All (Later id q) ws
      → All (Later id (q + 1)) (update_where id (written trim dto) ws)
  unfolding update_where written
  written-Later q dto [] h = tt
  written-Later q dto (w ∷ ws) (p, h) = elim (Bool-cases (has_id id w)) [
    | inl here ↦ rw here ((λ e. omega (arith, p here)), written-Later q dto ws h)
    | inr other ↦ rw other ((λ e. absurd (ground arith)), written-Later q dto ws h)
  ]

  write-IsPast :
      (owner_key : String) (q : ℕ) (dto : UpdateWorkspaceDto) (s : Store) (v : Workspace)
      → IsPast id q s.rows
      → (write trim id owner_key dto s).0 ≡ done v
      → IsPast id (q + 1) (write trim id owner_key dto s).1.rows
  unfolding write
  write-IsPast owner_key q dto s v past e =
      elim (Option-cases (find (has_id id) (update_where id (written trim dto) s.rows))) [
        | inl missing ↦ absurd (ground (arith, missing, e))
        | inr (w, found) ↦
            let rows : (write trim id owner_key dto s).1.rows
                ≡ update_where id (written trim dto) s.rows =
              ground (arith, found) in
            rw rows (record {
              there =
                  rw (any_rewritten id (written trim dto) (written-IsRewrite trim dto) id s.rows)
                    past.there;
              later = written-Later q dto s.rows past.later;
            })
      ]

  at_least :
      (owner_key : String) (q : ℕ) (s : Store) (w : Workspace)
      → UniqueIds s.rows
      → get id owner_key s ≡ some w
      → w.revision ≡ q
      → IsPast id q s.rows
  unfolding get
  at_least owner_key q s w u found at_q = record {
    there = find-any id owner_key s.rows w found;
    later =
        find-only id owner_key (λ x. q ≤ x.revision) s.rows w u found (λ h. omega (arith, at_q));
  }

  update-IsPast :
      (between : List (String × Request)) (owner_key : String) (q : ℕ) (dto : UpdateWorkspaceDto)
      (s : Store) (v : Workspace)
      → UniqueIds s.rows
      → dto.revision ≡ some q
      → All (λ r. Keeps id r.1) between
      → (update trim (λ t. run trim between t) id owner_key dto s).0 ≡ done v
      → IsPast id (q + 1) (update trim (λ t. run trim between t) id owner_key dto s).1.rows
  unfolding update
  update-IsPast between owner_key q dto s v u given keeps e =
      let others : Store → Store = λ t. run trim between t in
      elim (Option-cases (get id owner_key s)) [
        | inl missing ↦ absurd (ground (arith, missing, e))
        | inr (w, found) ↦ elim (Bool-cases (is_stale dto.revision w.revision)) [
          | inl stale ↦
              absurd
                (ground (arith, update_refused trim others id owner_key dto s w found stale, e))
          | inr fresh ↦
              let same = update_fresh trim others id owner_key dto s w found fresh in
              let at_q : w.revision ≡ q = ground (arith, given, fresh) in
              rw same (
                write-IsPast owner_key q dto (others s) v
                  (run-IsPast id q trim between s keeps (at_least owner_key q s w u found at_q))
                  (ap (λ a. a.0) (sym same) ∙ e))
        ]
      ]

  IsPast-refuses :
      (meanwhile : Store → Store) (owner_key : String) (q : ℕ) (dto : UpdateWorkspaceDto)
      (s : Store)
      → dto.revision ≡ some q
      → IsPast id (q + 1) s.rows
      → (update trim meanwhile id owner_key dto s ≡ (conflict, s))
        ⊎ (update trim meanwhile id owner_key dto s ≡ (not_found, s))
  unfolding update get
  IsPast-refuses meanwhile owner_key q dto s given past = elim (Option-cases (get id owner_key s)) [
    | inl missing ↦ inr (ground (arith, missing))
    | inr (w, found) ↦
        let newer = later_found id (q + 1) owner_key s.rows w past.later found in
        inl
          (update_refused trim meanwhile id owner_key dto s w found (ground (arith, given, newer)))
  ]

  -- Once an update of a workspace that carried a revision number has succeeded, every update with
  -- the same number that begins after its end is refused and changes nothing, whatever requests of
  -- any owners, each handled at a stroke, came between the read and the write of the first and
  -- between the two, but for the removal of this workspace. The ids of the table are unique when
  -- the first begins. Of two that overlap, both may succeed.
  pub update-once :
      (between : List (String × Request)) (owner_key other : String) (q : ℕ)
      (dto dto' : UpdateWorkspaceDto) (requests : List (String × Request))
      (meanwhile : Store → Store) (s : Store) (v : Workspace)
      → UniqueIds s.rows
      → dto.revision ≡ some q
      → dto'.revision ≡ some q
      → All (λ r. Keeps id r.1) between
      → (update trim (λ t. run trim between t) id owner_key dto s).0 ≡ done v
      → All (λ r. Keeps id r.1) requests
      → let t = run trim requests (update trim (λ t. run trim between t) id owner_key dto s).1 in
        (update trim meanwhile id other dto' t ≡ (conflict, t))
        ⊎ (update trim meanwhile id other dto' t ≡ (not_found, t))
  update-once between owner_key other q dto dto' requests meanwhile s v unique given given' kept_by
        e keeps =
      IsPast-refuses meanwhile other q dto'
        (run trim requests (update trim (λ t. run trim between t) id owner_key dto s).1) given'
        (run-IsPast id (q + 1) trim requests _ keeps
          (update-IsPast between owner_key q dto s v unique given kept_by e))
