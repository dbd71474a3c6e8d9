-- ===== src/Prelude/Maps.antt =====
-- A Go map with string keys as an association list: the first entry for a key counts, and the order
-- of the list is an order in which `range` may visit it.
use mathlib.Core.Path.{◌≡◌, refl}
use mathlib.Core.Bool.{Bool}
use mathlib.Core.Option.{Option, none, some}
use mathlib.Core.List.{List, [], ◌∷◌}
use Prim.Native.String.{String}
use native.Mathlib.Omega.{arith}
use text.Mathlib.Text.{◌==◌ as str_eq}
use text.Mathlib.TextEquality.{eq_iff}
use temporal_auto_scaled_wor.Prelude.Tests.{if◌then◌else◌}

abbrev pub Map {ℓ} : Type ℓ → Type ℓ
Map V = List (String × V)

module _ {ℓ} {V : Type ℓ} where
  -- Keep the entries whose key passes a test.
  unfoldable pub keep_keys : (String → Bool) → Map V → Map V
  keep_keys p [] = []
  keep_keys p ((j, w) ∷ m) = let rest = keep_keys p m in if p j then (j, w) ∷ rest else rest

  unfoldable pub delete : String → Map V → Map V
  delete k [] = []
  delete k ((j, w) ∷ m) = let rest = delete k m in if str_eq j k then rest else (j, w) ∷ rest

  unfoldable pub insert : String → V → Map V → Map V
  insert key new [] = (key, new) ∷ []
  insert key new ((other, old) ∷ entries) =
      let rest = insert key new entries in
      if str_eq other key then (key, new) ∷ entries else (other, old) ∷ rest

  unfoldable pub lookup : String → Map V → Option V
  lookup key [] = none
  lookup key ((other, value) ∷ entries) =
      let rest = lookup key entries in if str_eq other key then some value else rest

  -- Insert under a key that is not there yet, given what is there.
  abbrev pub insert_new : String → V → Option V → Map V → Map V
  insert_new k v none m = insert k v m
  insert_new k v (some old) m = m

  pub lookup-delete :
      (k j : String) (m : Map V) → lookup j (delete k m) ≡ (if str_eq k j then none else lookup j m)
  unfolding lookup delete
  lookup-delete k j [] = ground arith
  lookup-delete k j ((i, w) ∷ m) =
      ground (arith, eq_iff k j, eq_iff i k, eq_iff i j, lookup-delete k j m)

  pub lookup-insert :
      (written key : String) (new : V) (entries : Map V)
      → lookup key (insert written new entries)
        ≡ (if str_eq written key then some new else lookup key entries)
  unfolding insert lookup
  lookup-insert written key new ((other, old) ∷ entries) = ground (
    arith,
    lookup-insert written key new entries,
    eq_iff other key,
    eq_iff other written,
    eq_iff written key,
  )
  lookup-insert written key new [] = refl

  pub lookup-keep_keys :
      (p : String → Bool) (j : String) (m : Map V)
      → lookup j (keep_keys p m) ≡ (if p j then lookup j m else none)
  unfolding lookup keep_keys
  lookup-keep_keys p j [] = ground arith
  lookup-keep_keys p j ((i, w) ∷ m) = ground (arith, eq_iff i j, lookup-keep_keys p j m)

pub ruleset maps = (lookup-insert, lookup-delete, lookup-keep_keys)
