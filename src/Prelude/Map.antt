-- ===== src/Prelude/Map.antt =====
-- A Go map with string keys, as an association list that holds each key once.
use kenbun.Prelude.Tests.{◌==◌, if◌then◌else◌}
use Prim.Native.String.{String}
use mathlib.Core.Path.{◌≡◌, refl, ◌∙◌}
use mathlib.Core.Logic.{◌≢◌}
use mathlib.Core.Option.{Option, none, some}
use mathlib.Core.List.{List, [], ◌∷◌}
use native.Mathlib.Omega.{arith}
use text.Mathlib.TextEquality.{eq_iff}
use text.Mathlib.TextPositions.{eq_refl}

abbrev pub Map {ℓ} : Type ℓ → Type ℓ
Map V = List (String × V)

module _ {ℓ} {V : Type ℓ} where
  -- `m[key] = value`
  unfoldable pub insert : String → V → Map V → Map V
  insert key value [] = (key, value) ∷ []
  insert key value ((name, old) ∷ entries) =
      let later = insert key value entries in
      if name == key then (key, value) ∷ entries else (name, old) ∷ later

  -- `value, ok := m[wanted]`
  unfoldable pub lookup : String → Map V → Option V
  lookup wanted [] = none
  lookup wanted ((name, value) ∷ entries) =
      let later = lookup wanted entries in if name == wanted then some value else later

  -- A read after a write gives the value written under its key, and what was there under any other.
  pub lookup-insert :
      (key wanted : String) (value : V) (entries : Map V)
      → lookup wanted (insert key value entries)
        ≡ (if key == wanted then some value else lookup wanted entries)
  unfolding insert lookup
  lookup-insert key wanted value [] = refl
  lookup-insert key wanted value ((name, old) ∷ entries) =
      let later = lookup-insert key wanted value entries in
      ground (arith, eq_iff name key, eq_iff name wanted, eq_iff key wanted, later)

  pub lookup-insert_ne :
      (key wanted : String) (value : V) (entries : Map V)
      → key ≢ wanted
      → lookup wanted (insert key value entries) ≡ lookup wanted entries
  lookup-insert_ne key wanted value entries differs =
      ground (arith, eq_iff key wanted, lookup-insert key wanted value entries)

  pub lookup-insert_self :
      (key : String) (value : V) (entries : Map V)
      → lookup key (insert key value entries) ≡ some value
  lookup-insert_self key value entries = lookup-insert key key value entries ∙ (rw (eq_refl key))
