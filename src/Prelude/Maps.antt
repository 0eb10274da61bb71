-- ===== src/Prelude/Maps.antt =====
-- Go's maps with numbers as keys: association lists, in the order in which Go ranges over them.
use Prim.Native.Nat.{ℕ}
use mathlib.Core.Path.{◌≡◌, refl}
use mathlib.Core.Option.{Option, none, some}
use mathlib.Core.Bool.{Bool, true, false}
use mathlib.Core.List.{List, [], ◌∷◌}
use native.Mathlib.Omega.{arith}
use tfgrid_sdk_go.Prelude.Tests.{◌==◌, if◌then◌else◌}

module _ {ℓ} {V : Type ℓ} where
  unfoldable pub lookup : ℕ → List (ℕ × V) → Option V
  lookup k [] = none
  lookup k ((j, v) ∷ m) = if j == k then some v else lookup k m

  unfoldable pub remove : ℕ → List (ℕ × V) → List (ℕ × V)
  remove k [] = []
  remove k ((j, v) ∷ m) = let rest = remove k m in if j == k then rest else (j, v) ∷ rest

  unfoldable pub insert : ℕ → V → List (ℕ × V) → List (ℕ × V)
  insert k v m = (k, v) ∷ remove k m

  -- `_, ok := m[k]`
  unfoldable pub has : ℕ → List (ℕ × V) → Bool
  has k m = elim (lookup k m) [ some v ↦ true | none ↦ false ]

  pub lookup-remove :
      (j k : ℕ) (m : List (ℕ × V)) → lookup j (remove k m) ≡ (if k == j then none else lookup j m)
  unfolding lookup remove
  lookup-remove j k [] = ground arith
  lookup-remove j k ((i, v) ∷ m) = ground (arith, lookup-remove j k m)

  pub lookup-insert :
      (j k : ℕ) (v : V) (m : List (ℕ × V))
      → lookup j (insert k v m) ≡ (if k == j then some v else lookup j m)
  unfolding lookup insert
  lookup-insert j k v m = ground (arith, lookup-remove j k m)

  pub has-remove :
      (j k : ℕ) (m : List (ℕ × V)) → has j (remove k m) ≡ (if k == j then false else has j m)
  unfolding has
  has-remove j k m = ground (arith, lookup-remove j k m)

  pub has-insert :
      (j k : ℕ) (v : V) (m : List (ℕ × V))
      → has j (insert k v m) ≡ (if k == j then true else has j m)
  unfolding has
  has-insert j k v m = ground (arith, lookup-insert j k v m)

  pub has-cons :
      (j k : ℕ) (v : V) (m : List (ℕ × V)) → has j ((k, v) ∷ m) ≡ (if k == j then true else has j m)
  unfolding has lookup
  has-cons j k v m = ground arith

pub has-nil {ℓ} : (V : Type ℓ) (j : ℕ) → has {V = V} j [] ≡ false
unfolding has lookup
has-nil V j = refl
