-- ===== src/Workspaces/Validity.antt =====
-- apps/api/src/modules/workspaces/workspaces.service.ts: what every history keeps of the table.
use soroban_dev_console.Shared.{
  Bool-cases, inl, inr, String, Bool, false, List, [], ◌∷◌, ◌++◌, arith, any, select, ◌≡◌, refl,
  All, eq_iff, All-append, All-select,
}
use soroban_dev_console.Workspaces.{Workspace, Store, has_id, update_where}
use soroban_dev_console.Workspaces.Histories.{
  Request, run, step, step-Change, Change, kept, added, rewritten, dropped, IsRewrite, TagsFit,
}

-- No id stands twice.
abbrev pub UniqueIds : List Workspace → Type 0
UniqueIds [] = Unit
UniqueIds (w ∷ ws) = (any (has_id w.id) ws ≡ false) × UniqueIds ws

abbrev pub HasTags : Workspace → Type 0
HasTags w = TagsFit w.tags

pub record IsConsistent (rows : List Workspace) : Type 0 where
  pub unique : UniqueIds rows
  pub tags : All HasTags rows

any_added :
    (id : String) (w : Workspace) (ws : List Workspace)
    → any (has_id id) ws ≡ false
    → has_id id w ≡ false
    → any (has_id id) (ws ++ w ∷ []) ≡ false
any_added id w [] h k = ground arith
any_added id w (v ∷ ws) h k = ground (arith, any_added id w ws)

added-UniqueIds :
    (w : Workspace) (ws : List Workspace)
    → UniqueIds ws
    → any (has_id w.id) ws ≡ false
    → UniqueIds (ws ++ w ∷ [])
added-UniqueIds w [] u h = (refl, tt)
added-UniqueIds w (v ∷ ws) (n, u) h =
    ground (arith, eq_iff v.id w.id, eq_iff w.id v.id, any_added v.id w ws, added-UniqueIds w ws u)

module _ (id : String) (f : Workspace → Workspace) (r : IsRewrite f) where
  pub any_rewritten :
      (j : String) (ws : List Workspace) → any (has_id j) (update_where id f ws) ≡ any (has_id j) ws
  unfolding update_where
  any_rewritten j [] = refl
  any_rewritten j (w ∷ ws) = ground (arith, r.id_kept w, any_rewritten j ws)

  update_where-UniqueIds : (ws : List Workspace) → UniqueIds ws → UniqueIds (update_where id f ws)
  unfolding update_where
  update_where-UniqueIds [] u = tt
  update_where-UniqueIds (w ∷ ws) (n, u) =
      ground (arith, r.id_kept w, any_rewritten w.id ws, update_where-UniqueIds ws u)

  update_where-HasTags : (ws : List Workspace) → All HasTags ws → All HasTags (update_where id f ws)
  unfolding update_where
  update_where-HasTags [] h = tt
  update_where-HasTags (w ∷ ws) (t, h) = elim (Bool-cases (has_id id w)) [
    | inl here ↦ rw here (r.tags_fit w t, update_where-HasTags ws h)
    | inr other ↦ rw other (t, update_where-HasTags ws h)
  ]

any-select :
    (j : String) (p : Workspace → Bool) (ws : List Workspace)
    → any (has_id j) ws ≡ false
    → any (has_id j) (select p ws) ≡ false
any-select j p [] h = refl
any-select j p (w ∷ ws) h = ground (arith, any-select j p ws)

select-UniqueIds :
    (p : Workspace → Bool) (ws : List Workspace) → UniqueIds ws → UniqueIds (select p ws)
select-UniqueIds p [] u = tt
select-UniqueIds p (w ∷ ws) (n, u) = ground (arith, any-select w.id p ws n, select-UniqueIds p ws u)

pub Change-IsConsistent :
    (owner_key : String) (request : Request) (before after : List Workspace)
    → IsConsistent before
    → Change owner_key request before after
    → IsConsistent after
Change-IsConsistent owner_key request before after v (kept e) = rw e v
Change-IsConsistent owner_key request before after v (added w o t free e) = rw e (record {
  unique = added-UniqueIds w before v.unique free;
  tags = All-append HasTags before (w ∷ []) v.tags (rw t (omega arith, refl, tt), tt);
})
Change-IsConsistent owner_key request before after v (rewritten id f current found r e) =
    rw e (record {
      unique = update_where-UniqueIds id f r before v.unique;
      tags = update_where-HasTags id f r before v.tags;
    })
Change-IsConsistent owner_key request before after v (dropped id current which found e) =
    rw e (record {
      unique = select-UniqueIds _ before v.unique;
      tags = All-select HasTags _ before v.tags;
    })

module _ (trim : String → String) where
  -- After any history of requests of any owners, from a table where this holds, no two workspaces
  -- have the same id, and each has at most 20 tags, no two the same, none longer than 50.
  pub run-IsConsistent :
      (requests : List (String × Request)) (s : Store)
      → IsConsistent s.rows
      → IsConsistent (run trim requests s).rows
  unfolding run
  run-IsConsistent [] s v = v
  run-IsConsistent ((owner_key, request) ∷ later) s v =
      run-IsConsistent later (step trim owner_key request s)
        (Change-IsConsistent owner_key request s.rows _ v (step-Change trim owner_key request s))
