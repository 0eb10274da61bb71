-- ===== src/Calculator/Tests.antt =====
-- The theorem on discount packages at a concrete balance, with float64 as integers.
use tfgrid_sdk_go.Prelude.{
  ℕ, ◌+◌, ◌-◌, ◌*◌, ◌/◌, ◌≡◌, ◌⊎◌, true, false, List, [], ◌∷◌, ◌++◌, All, ltb, leb, if◌then◌else◌,
}
use tfgrid_sdk_go.Calculator.{
  Floats, Package, none_package, bronze, silver, gold, duration, select_package,
}
use tfgrid_sdk_go.Calculator.Packages.{select_package_last}

abbrev whole_floats : Floats ℕ
whole_floats = record {
  of_int = λ a. a;
  ratio = λ a b. a / b;
  plus = λ a b. a + b;
  minus = λ a b. a - b;
  times = λ a b. a * b;
  over = λ a b. a / b;
  less = ltb;
  max = λ a b. if leb a b then b else a;
  min = λ a b. if leb a b then a else b;
}

abbrev test_order : List Package
test_order = gold ∷ silver ∷ bronze ∷ []

select_package_last_example :
    let pkg = select_package whole_floats 70 10 test_order none_package in
    ((pkg ≡ none_package) × All (λ p. ltb (10 * duration whole_floats p) 70 ≡ false) test_order)
    ⊎ ((before : List Package) × (after : List Package) × (test_order ≡ before ++ pkg ∷ after)
        × (ltb (10 * duration whole_floats pkg) 70 ≡ true)
        × All (λ p. ltb (10 * duration whole_floats p) 70 ≡ false) after)
select_package_last_example = select_package_last whole_floats 70 10 test_order none_package
