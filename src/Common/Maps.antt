-- ===== src/Common/Maps.antt =====
-- Go maps with string keys, as association lists. `lookup` is `v, ok := m[k]`, `insert` is `m[k] = v`.
use Prim.Native.String.{String}
use mathlib.Core.Path.{◌≡◌, refl}
use mathlib.Core.Option.{Option, none, some}
use mathlib.Core.List.{List, [], ◌∷◌}
use native.Mathlib.Omega.{arith}
use text.Mathlib.Text.{◌==◌}
use text.Mathlib.TextEquality.{eq_iff}
use text.Mathlib.TextPositions.{eq_refl}
use jupyter_operator.Common.Tests.{if◌then◌else◌}

module _ {ℓ} {V : Type ℓ} where
  unfoldable pub insert : String → V → List (String × V) → List (String × V)
  insert key value [] = (key, value) ∷ []
  insert key value (entry ∷ m) =
      let tail = insert key value m in if entry.0 == key then (key, value) ∷ m else entry ∷ tail

  unfoldable pub lookup : String → List (String × V) → Option V
  lookup key [] = none
  lookup key (entry ∷ m) =
      let later = lookup key m in if entry.0 == key then some entry.1 else later

  -- The entry that was assigned, and the other entries as before.
  pub lookup-insert :
      (assigned key : String) (value : V) (m : List (String × V))
      → lookup key (insert assigned value m)
        ≡ (if assigned == key then some value else lookup key m)
  unfolding insert lookup
  lookup-insert assigned key value [] = refl
  lookup-insert assigned key value (entry ∷ m) = ground (
    arith,
    eq_iff entry.0 key,
    eq_iff assigned key,
    eq_iff entry.0 assigned,
    lookup-insert assigned key value m,
  )

  pub lookup-insert_self :
      (assigned : String) (value : V) (m : List (String × V))
      → lookup assigned (insert assigned value m) ≡ some value
  lookup-insert_self assigned value m = rw (lookup-insert, eq_refl assigned)
