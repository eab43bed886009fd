-- ===== src/Prelude/Maps.antt =====
-- Go maps with string keys, as lists of entries with at most one for each key.
use mathlib.Core.Path.{◌≡◌, refl}
use mathlib.Core.Option.{Option, none, some}
use mathlib.Core.List.{List, [], ◌∷◌}
use native.Mathlib.Omega.{arith}
use grantseal.Prelude.Tests.{if◌then◌else◌}
use grantseal.Prelude.Text.{Bytes, eqb, eqb_iff}

abbrev pub Map {ℓ} : Type ℓ → Type ℓ
Map V = List (Bytes × V)

module _ {ℓ} {V : Type ℓ} where
  -- v, ok := m[k]
  unfoldable pub lookup : Bytes → Map V → Option V
  lookup k [] = none
  lookup k ((j, v) ∷ m) = if eqb j k then some v else lookup k m

  -- m[k] = v
  unfoldable pub insert : Bytes → V → Map V → Map V
  insert k v [] = (k, v) ∷ []
  insert k v ((j, w) ∷ m) = if eqb j k then (k, v) ∷ m else (j, w) ∷ insert k v m

  -- delete(m, k)
  unfoldable pub remove : Bytes → Map V → Map V
  remove k [] = []
  remove k ((j, v) ∷ m) = let rest = remove k m in if eqb j k then rest else (j, v) ∷ rest

  pub lookup-insert :
      (k j : Bytes) (v : V) (m : Map V)
      → lookup j (insert k v m) ≡ (if eqb k j then some v else lookup j m)
  unfolding lookup insert
  lookup-insert k j v ((i, w) ∷ rest) =
      ground (arith, eqb_iff i k, eqb_iff i j, eqb_iff k j, lookup-insert k j v rest)
  lookup-insert k j v [] = refl

  pub lookup-remove :
      (k j : Bytes) (m : Map V) → lookup j (remove k m) ≡ (if eqb k j then none else lookup j m)
  unfolding lookup remove
  lookup-remove k j [] = ground arith
  lookup-remove k j ((i, w) ∷ m) =
      ground (arith, eqb_iff k j, eqb_iff i k, eqb_iff i j, lookup-remove k j m)
