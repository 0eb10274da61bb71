-- ===== src/Prelude/Dedup.antt =====
-- Lists of numbers without repetition.
use Prim.Native.Nat.{ℕ}
use mathlib.Core.Path.{◌≡◌, refl}
use mathlib.Core.Bool.{false}
use mathlib.Core.List.{List, [], ◌∷◌, ◌++◌}
use native.Mathlib.Omega.{arith}
use tfgrid_sdk_go.Prelude.Lists.{contains, contains-append}

abbrev pub Distinct : List ℕ → Type 0
Distinct [] = Unit
Distinct (x ∷ xs) = (contains xs x ≡ false) × Distinct xs

-- A new element at the end keeps the list without repetition.
pub Distinct-snoc :
    (xs : List ℕ) (a : ℕ) → Distinct xs → contains xs a ≡ false → Distinct (xs ++ a ∷ [])
Distinct-snoc [] a d n = (refl, tt)
Distinct-snoc (x ∷ xs) a d n = ground (arith, Distinct-snoc xs a d.1, contains-append xs (a ∷ []) x)
