-- ===== src/Base/Tables.antt =====
-- A Go map with string keys, as an association list.
use mathlib.Core.Path.{◌≡◌, refl}
use mathlib.Core.Option.{Option, none, some}
use mathlib.Core.List.{List, [], ◌∷◌}
use native.Mathlib.Omega.{arith}
use trusted_group.Base.Tests.{if◌then◌else◌}
use trusted_group.Base.Lists.{Bytes, beq, beq→eq, beq_refl}

abbrev pub Table {ℓ} : Type ℓ → Type ℓ
Table V = List (Bytes × V)

module _ {ℓ} {V : Type ℓ} where
  -- `m[k]`
  unfoldable pub lookup : Bytes → Table V → Option V
  lookup k [] = none
  lookup k ((j, v) ∷ t) = if beq j k then some v else lookup k t

  -- `m[k] = v`
  unfoldable pub insert : Bytes → V → Table V → Table V
  insert k v [] = (k, v) ∷ []
  insert k v ((j, w) ∷ t) = if beq j k then (j, v) ∷ t else (j, w) ∷ insert k v t

  pub lookup-insert :
      (k : Bytes) (v : V) (t : Table V) (j : Bytes)
      → lookup j (insert k v t) ≡ (if beq k j then some v else lookup j t)
  unfolding lookup insert
  lookup-insert k v [] j = refl
  lookup-insert k v ((i, w) ∷ t) j =
      ground
        (arith, lookup-insert k v t j, beq→eq i k, beq→eq i j, beq→eq k j, beq_refl i, beq_refl j)
