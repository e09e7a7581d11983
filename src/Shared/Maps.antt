-- ===== src/Shared/Maps.antt =====
-- A JavaScript `Map` with text keys: the entries in the order of insertion.
use Prim.Native.String.{String}
use mathlib.Core.Path.{◌≡◌, refl}
use mathlib.Core.Bool.{Bool, true, false, not}
use mathlib.Core.Option.{Option, none, some}
use mathlib.Core.List.{List, [], ◌∷◌}
use native.Mathlib.Omega.{arith}
use text.Mathlib.Text.{◌==◌ as str_eq}
use text.Mathlib.TextEquality.{eq_iff}
use soroban_dev_console.Shared.Tests.{if◌then◌else◌}
use soroban_dev_console.Shared.Lists.{select}

abbrev pub Dict {ℓ} : Type ℓ → Type ℓ
Dict V = List (String × V)

module _ {ℓ} {V : Type ℓ} where
  -- `map.get(k)`.
  unfoldable pub lookup : String → Dict V → Option V
  lookup k [] = none
  lookup k ((j, v) ∷ m) = if str_eq j k then some v else lookup k m

  -- `map.delete(k)`.
  unfoldable pub delete : String → Dict V → Dict V
  delete k [] = []
  delete k ((j, w) ∷ m) = if str_eq j k then delete k m else (j, w) ∷ delete k m

  -- `map.set(k, v)`: an old key keeps its place.
  unfoldable pub insert : String → V → Dict V → Dict V
  insert key value [] = (key, value) ∷ []
  insert key value (entry ∷ rest) =
      if str_eq entry.0 key then (key, value) ∷ rest else entry ∷ insert key value rest

  pub lookup-insert :
      (key other : String) (value : V) (dict : Dict V)
      → lookup other (insert key value dict)
        ≡ (if str_eq key other then some value else lookup other dict)
  unfolding insert lookup
  lookup-insert key other value [] = refl
  lookup-insert key other value ((first, held) ∷ rest) =
      let later = lookup-insert key other value rest in
      ground (arith, later, eq_iff first key, eq_iff key other, eq_iff first other)

  pub lookup-delete :
      (k j : String) (m : Dict V)
      → lookup j (delete k m) ≡ (if str_eq k j then none else lookup j m)
  unfolding lookup delete
  lookup-delete k j [] = ground arith
  lookup-delete k j ((i, w) ∷ m) =
      ground (arith, eq_iff k j, eq_iff i k, eq_iff i j, lookup-delete k j m)

  -- `for (const [key] of map) if (test(key)) map.delete(key)`.
  pub lookup-drop_keys :
      (p : String → Bool) (k : String) (m : Dict V)
      → lookup k (select (λ e. not (p e.0)) m) ≡ (if p k then none else lookup k m)
  unfolding lookup
  lookup-drop_keys p k [] = ground arith
  lookup-drop_keys p k ((j, v) ∷ m) = ground (arith, eq_iff j k, lookup-drop_keys p k m)

  -- No key stands twice.
  abbrev pub UniqueKeys : Dict V → Type ℓ
  UniqueKeys [] = Unit
  UniqueKeys ((k, v) ∷ m) = (lookup k m ≡ none) × UniqueKeys m

  pub insert-UniqueKeys :
      (k : String) (v : V) (m : Dict V) → UniqueKeys m → UniqueKeys (insert k v m)
  unfolding insert lookup
  insert-UniqueKeys k v [] h = (refl, tt)
  insert-UniqueKeys k v ((j, w) ∷ m) (n, h) =
      ground (arith, eq_iff j k, eq_iff k j, lookup-insert k j v m, insert-UniqueKeys k v m h)

  pub delete-UniqueKeys : (k : String) (m : Dict V) → UniqueKeys m → UniqueKeys (delete k m)
  unfolding delete
  delete-UniqueKeys k [] h = tt
  delete-UniqueKeys k ((j, w) ∷ m) (n, h) =
      ground (arith, eq_iff k j, lookup-delete k j m, delete-UniqueKeys k m h)

  pub lookup-select-none :
      (p : String × V → Bool) (k : String) (m : Dict V)
      → lookup k m ≡ none
      → lookup k (select p m) ≡ none
  unfolding lookup
  lookup-select-none p k [] h = refl
  lookup-select-none p k ((j, v) ∷ m) h = ground (arith, lookup-select-none p k m)

  pub select-UniqueKeys :
      (p : String × V → Bool) (m : Dict V) → UniqueKeys m → UniqueKeys (select p m)
  select-UniqueKeys p [] h = tt
  select-UniqueKeys p ((j, v) ∷ m) (n, h) =
      ground (arith, lookup-select-none p j m n, select-UniqueKeys p m h)

  -- What is left of a map from which entries are deleted by a test.
  pub lookup-select :
      (p : String × V → Bool) (k : String) (m : Dict V)
      → UniqueKeys m
      → lookup k (select p m)
        ≡ elim (lookup k m) [ none ↦ none | some v ↦ if p (k, v) then some v else none ]
  unfolding lookup
  lookup-select p k [] h = refl
  lookup-select p k ((j, v) ∷ m) (n, h) =
      ground (arith, eq_iff j k, lookup-select-none p j m n, lookup-select p k m h)

pub str_eq_self : (k : String) → str_eq k k ≡ true
str_eq_self k = (eq_iff k k).1 refl

-- A JavaScript `Set` of texts.
abbrev pub has : String → List String → Bool
has k [] = false
has k (j ∷ m) = if str_eq j k then true else has k m
