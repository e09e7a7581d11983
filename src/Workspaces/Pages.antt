-- ===== src/Workspaces/Pages.antt =====
-- apps/api/src/modules/workspaces/workspaces.service.ts, `list`: its pages make up the whole.
use soroban_dev_console.Shared.{
  ◌+◌, ◌*◌, ◌≤◌, ap, length, take, drop, drop-add, String, ℕ, zero, suc, List, [], ◌∷◌, ◌++◌, some,
  arith, select, ◌≡◌, ◌∙◌, refl, sym,
}
use soroban_dev_console.Workspaces.{Workspace, Store, or_else}
use soroban_dev_console.Workspaces.Queries.{ListWorkspacesDto, Page, list, page_of, is_listed}

module _ {ℓ} {A : Type ℓ} where
  take_nil : (n : ℕ) → take {A = A} n [] ≡ []
  take_nil zero = refl
  take_nil (suc n) = refl

  take-add : (m n : ℕ) (xs : List A) → take (m + n) xs ≡ take m xs ++ take n (drop m xs)
  take-add zero n xs = let e : zero + n ≡ n = omega arith in rw e refl
  take-add (suc m) n [] = let e : suc m + n ≡ suc (m + n) = omega arith in rw e (sym (take_nil n))
  take-add (suc m) n (x ∷ xs) =
      let e : suc m + n ≡ suc (m + n) = omega arith in rw e (ap (◌∷◌ x) (take-add m n xs))

  take_all : (n : ℕ) (xs : List A) → length xs ≤ n → take n xs ≡ xs
  take_all zero [] h = refl
  take_all zero (x ∷ xs) h = absurd (omega (arith, h))
  take_all (suc n) [] h = refl
  take_all (suc n) (x ∷ xs) h = ap (◌∷◌ x) (take_all n xs (omega (arith, h)))

module _ (sort : String → String → List Workspace → List Workspace)
    (stringify : List String → String) (owner_key : String) (query : ListWorkspacesDto) (size : ℕ)
    (s : Store) where
  abbrev page_at : ℕ → Page
  page_at skip =
      list sort stringify owner_key (record query { skip = some skip; take = some size }) s

  -- The rows of this many pages, one after the other.
  abbrev pub pages_from : ℕ → ℕ → List Workspace
  pages_from zero skip = []
  pages_from (suc n) skip = (page_at skip).rows ++ pages_from n (skip + size)

  abbrev pub in_order : List Workspace
  in_order =
      sort (or_else query.sort_by "updatedAt") (or_else query.sort_order "desc")
        (select (is_listed stringify owner_key query) s.rows)

  pages_from-take : (n skip : ℕ) → pages_from n skip ≡ take (n * size) (drop skip in_order)
  unfolding list page_of is_listed
  pages_from-take zero skip = let e : 0 * size ≡ 0 = omega arith in rw e refl
  pages_from-take (suc n) skip =
      let e : suc n * size ≡ size + n * size = omega arith in
      rw (e, take-add size (n * size) (drop skip in_order), ← drop-add skip size in_order)
        (ap (λ l. (page_at skip).rows ++ l) (pages_from-take n (skip + size)))

  -- The pages of a list of workspaces of one size, read one after the other, make up the whole list in
  -- order, when they are as many as the total asks for and the order of the database loses no row.
  pub list-pages :
      (n : ℕ)
      → length in_order ≡ (page_at 0).total
      → (page_at 0).total ≤ n * size
      → pages_from n 0 ≡ in_order
  list-pages n e h = pages_from-take n 0 ∙ take_all (n * size) in_order (omega (arith, e, h))
