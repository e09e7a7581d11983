-- ===== src/Workspaces/Replays.antt =====
-- apps/api/src/modules/workspaces/workspaces.service.ts: the replay of a saved interaction and the
-- comparison of two. No argument has the name of a property that every object has.
use mathlib.Core.Path.{subst}
use soroban_dev_console.Shared.{
  ◌≡◌, refl, ◌∙◌, ap, sym, String, Bool, true, false, ◌&&◌, Option, none, some, List, [], ◌∷◌, ◌++◌,
  map, ◌==◌, str_eq, if◌then◌else◌, arith, find, Dict, lookup, length, eq_iff, ◌↔◌, has, All,
  length-append, Bool-cases, inl, inr,
}
use soroban_dev_console.Workspaces.{
  Interaction, Store, Answer, done, not_found, get, or_else, dedupe,
}

pub record Diff : Type 0 where
  pub changed : Dict (String × String)
  pub added : Dict String
  pub removed : Dict String

pub record Comparison : Type 0 where
  pub interaction_a : String × String
  pub interaction_b : String × String
  pub diff : Diff
  pub identical : Bool

abbrev pub has_interaction_id : String → Interaction → Bool
has_interaction_id id i = str_eq i.id id

unfoldable pub replay_interaction : String → String → String → Store → Answer Interaction
replay_interaction id interaction_id owner_key s = elim (get id owner_key s) [
  | none ↦ not_found
  | some w ↦ elim (find (has_interaction_id interaction_id) w.saved_interactions) [
    | none ↦ not_found
    | some i ↦ done i
  ]
]

abbrev pub keys : Dict String → List String
keys = map (λ e. e.0)

-- The body of the loop over all keys: the values of the key on the two sides.
unfoldable pub compare_key : String → Option String → Option String → Diff → Diff
compare_key key (some a) (some b) d =
    if str_eq a b then d else record d { changed = d.changed ++ (key, (a, b)) ∷ [] }
compare_key key (some a) none d = record d { removed = d.removed ++ (key, a) ∷ [] }
compare_key key none (some b) d = record d { added = d.added ++ (key, b) ∷ [] }
compare_key key none none d = d

unfoldable pub compare_keys : Dict String → Dict String → List String → Diff → Diff
compare_keys a b [] d = d
compare_keys a b (key ∷ ks) d =
    compare_keys a b ks (compare_key key (lookup key a) (lookup key b) d)

unfoldable pub diff_arguments : Dict String → Dict String → Diff
diff_arguments a b =
    compare_keys a b (dedupe [] (keys a ++ keys b))
      (record { changed = []; added = []; removed = [] })

abbrev pub is_empty : Diff → Bool
is_empty d = length d.changed == 0 && (length d.added == 0) && (length d.removed == 0)

unfoldable pub compare_interactions : Interaction → Interaction → Comparison
compare_interactions a b =
    let d = diff_arguments (or_else a.arguments_json []) (or_else b.arguments_json []) in
    record {
      interaction_a = (a.id, a.function_name);
      interaction_b = (b.id, b.function_name);
      diff = d;
      identical = is_empty d;
    }

unfoldable pub diff_interactions : String → String → String → String → Store → Answer Comparison
diff_interactions id interaction_id compare_id owner_key s = elim (get id owner_key s) [
  | none ↦ not_found
  | some w ↦ elim (find (has_interaction_id interaction_id) w.saved_interactions) [
    | none ↦ not_found
    | some a ↦ elim (find (has_interaction_id compare_id) w.saved_interactions) [
      | none ↦ not_found
      | some b ↦ done (compare_interactions a b)
    ]
  ]
]

compare_key_same : (key : String) (x : Option String) (d : Diff) → compare_key key x x d ≡ d
unfolding compare_key
compare_key_same key (some a) d = ground (arith, eq_iff a a)
compare_key_same key none d = refl

-- A key whose values differ is entered.
compare_key_empty :
    (key : String) (x y : Option String) (d : Diff)
    → is_empty (compare_key key x y d) ≡ true
    → (is_empty d ≡ true) × (x ≡ y)
unfolding compare_key
compare_key_empty key (some a) (some b) d h =
    ground (arith, eq_iff a b, length-append d.changed ((key, (a, b)) ∷ []))
compare_key_empty key (some a) none d h = ground (arith, length-append d.removed ((key, a) ∷ []))
compare_key_empty key none (some b) d h = ground (arith, length-append d.added ((key, b) ∷ []))
compare_key_empty key none none d h = (h, refl)

module _ (a b : Dict String) where
  abbrev Agree : String → Type 0
  Agree key = lookup key a ≡ lookup key b

  compare_keys_empty :
      (ks : List String) (d : Diff)
      → is_empty (compare_keys a b ks d) ≡ true
      → (is_empty d ≡ true) × All Agree ks
  unfolding compare_keys
  compare_keys_empty [] d h = (h, tt)
  compare_keys_empty (key ∷ ks) d h =
      let (now, later) =
        compare_keys_empty ks (compare_key key (lookup key a) (lookup key b) d) h in
      let (before, agree) = compare_key_empty key (lookup key a) (lookup key b) d now in
      (before, (agree, later))

  compare_keys_same :
      (ks : List String) (d : Diff)
      → ((key : String) → lookup key a ≡ lookup key b)
      → compare_keys a b ks d ≡ d
  unfolding compare_keys
  compare_keys_same [] d h = refl
  compare_keys_same (key ∷ ks) d h =
      rw (h key, compare_key_same key (lookup key b) d) (compare_keys_same ks d h)

All-has : (P : String → Type 0) (k : String) (ks : List String) → All P ks → has k ks ≡ true → P k
All-has P k [] h e = absurd (ground arith)
All-has P k (j ∷ ks) (p, h) e = elim (Bool-cases (str_eq j k)) [
  | inl same ↦ subst P ((eq_iff j k).0 same) p
  | inr other ↦ All-has P k ks h (ground arith)
]

has-dedupe :
    (k : String) (seen ts : List String)
    → (has k ts ≡ true)
    → (has k seen ≡ false)
    → has k (dedupe seen ts) ≡ true
unfolding dedupe
has-dedupe k seen [] h n = h
has-dedupe k seen (t ∷ ts) h n =
    ground (arith, eq_iff t k, eq_iff k t, has-dedupe k seen ts, has-dedupe k (t ∷ seen) ts)

lookup-has :
    (k : String) (a : Dict String) (more : List String)
    → has k (keys a ++ more) ≡ false
    → lookup k a ≡ none
unfolding lookup
lookup-has k [] more h = refl
lookup-has k ((j, v) ∷ a) more h = ground (arith, lookup-has k a more)

has-append_right : (k : String) (xs ys : List String) → has k (xs ++ ys) ≡ false → has k ys ≡ false
has-append_right k [] ys h = h
has-append_right k (x ∷ xs) ys h = ground (arith, has-append_right k xs ys)

has-append_nil : (k : String) (xs : List String) → has k xs ≡ false → has k (xs ++ []) ≡ false
has-append_nil k [] h = h
has-append_nil k (x ∷ xs) h = ground (arith, has-append_nil k xs)

-- Two sets of arguments are reported as identical, with nothing changed, added or removed, exactly
-- when they have the same value, or none, at every name.
pub diff_arguments-identical :
    (a b : Dict String)
    → (is_empty (diff_arguments a b) ≡ true) ↔ ((key : String) → lookup key a ≡ lookup key b)
unfolding diff_arguments
diff_arguments-identical a b =
    let all = dedupe [] (keys a ++ keys b) in
    let none_yet : Diff = record { changed = []; added = []; removed = [] } in
    (
      (λ h key. elim (Bool-cases (has key (keys a ++ keys b))) [
        | inl known ↦
            All-has (Agree a b) key all (compare_keys_empty a b all none_yet h).1
              (has-dedupe key [] (keys a ++ keys b) known refl)
        | inr unknown ↦
            lookup-has key a (keys b) unknown
            ∙ sym (
                lookup-has key b []
                  (has-append_nil key (keys b) (has-append_right key (keys a) (keys b) unknown)))
      ]),
      (λ agree. ap is_empty (compare_keys_same a b all none_yet agree)),
    )
