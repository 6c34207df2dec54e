-- ===== src/Prelude/Maps.antt =====
-- Go maps with string keys: association lists, read by their first entry for a key.
use rio.Prelude.Strings.{Text, text_eq, text_eq_iff}
use rio.Prelude.Tests.{if◌then◌else◌}
use mathlib.Core.Path.{◌≡◌, refl}
use mathlib.Core.List.{List, [], ◌∷◌}
use mathlib.Core.Option.{Option, none, some}
use native.Mathlib.Omega.{arith}

module _ {V : Type 0} where
  unfoldable pub lookup : Text → List (Text × V) → Option V
  lookup k [] = none
  lookup k ((j, v) ∷ m) = if text_eq j k then some v else lookup k m

  -- `m[k] = v`
  unfoldable pub insert : Text → V → List (Text × V) → List (Text × V)
  insert k v [] = (k, v) ∷ []
  insert k v ((j, w) ∷ m) = if text_eq j k then (k, v) ∷ m else (j, w) ∷ insert k v m

  -- `for k, v := range overlay { m[k] = v }`: a map has one entry for a key, so the order of the
  -- rounds does not matter.
  unfoldable pub insert_all : List (Text × V) → List (Text × V) → List (Text × V)
  unfolding insert
  insert_all [] m = m
  insert_all ((k, v) ∷ overlay) m = insert k v (insert_all overlay m)

  pub lookup-insert :
      (k j : Text) (v : V) (m : List (Text × V))
      → lookup j (insert k v m) ≡ (if text_eq k j then some v else lookup j m)
  unfolding lookup insert
  lookup-insert k j v [] = refl
  lookup-insert k j v ((i, w) ∷ m) =
      ground (arith, text_eq_iff k j, text_eq_iff i k, text_eq_iff i j, lookup-insert k j v m)

  abbrev pub or_else : Option V → Option V → Option V
  or_else found o = elim found [ some v ↦ some v | none ↦ o ]

  pub lookup-insert_all :
      (j : Text) (overlay m : List (Text × V))
      → lookup j (insert_all overlay m) ≡ or_else (lookup j overlay) (lookup j m)
  unfolding lookup insert_all
  lookup-insert_all j [] m = refl
  lookup-insert_all j ((k, v) ∷ overlay) m =
      ground (arith, lookup-insert k j v (insert_all overlay m), lookup-insert_all j overlay m)
