-- ===== src/Calculator/Packages.antt =====
-- The choice of a discount package in grid-client/calculator/calculate.go.
use tfgrid_sdk_go.Prelude.{
  ◌≡◌, refl, sym, ap, ◌∙◌, ◌⊎◌, inl, inr, true, false, List, [], ◌∷◌, ◌++◌, All, arith,
  if◌then◌else◌, Bool-cases,
}
use tfgrid_sdk_go.Calculator.{Floats, Package, duration, affords, select_package}

module _ {F : Type 0} (fl : Floats F) (balance price : F) where
  -- Whatever the order in which the map of packages is ranged over, the loop selects the last package
  -- of the order whose price for its duration is below the balance; where there is none, it leaves
  -- the package from before.
  pub select_package_last :
      (order : List Package) (selected : Package)
      → let pkg = select_package fl balance price order selected in
        ((pkg ≡ selected)
          × All (λ p. fl.less (fl.times price (duration fl p)) balance ≡ false) order)
        ⊎ ((before : List Package) × (after : List Package) × (order ≡ before ++ pkg ∷ after)
            × (fl.less (fl.times price (duration fl pkg)) balance ≡ true)
            × All (λ p. fl.less (fl.times price (duration fl p)) balance ≡ false) after)
  unfolding select_package affords
  select_package_last [] selected = inl (refl, tt)
  select_package_last (p ∷ ps) selected = elim (Bool-cases (affords fl balance price p)) [
    | inr poor ↦ rw poor (elim (select_package_last ps selected) [
      | inl (same, none_of) ↦ inl (same, (refl, none_of))
      | inr (before, after, e, rich, none_of) ↦
          inr (p ∷ before, after, ap (λ l. p ∷ l) e, rich, none_of)
    ])
    | inl rich ↦ rw rich (elim (select_package_last ps p) [
      | inl (same, none_of) ↦
          inr (
            [],
            ps,
            ap (λ q. q ∷ ps) (sym same),
            ap (affords fl balance price) same ∙ rich,
            none_of,
          )
      | inr (before, after, e, rich', none_of) ↦
          inr (p ∷ before, after, ap (λ l. p ∷ l) e, rich', none_of)
    ])
  ]

  -- Of two packages that the balance affords, the one that the map gives last is selected, so the
  -- discount depends on the order of the map.
  pub select_package_order :
      (order : List Package) (selected a b : Package)
      → affords fl balance price a ≡ true
      → affords fl balance price b ≡ true
      → (select_package fl balance price (order ++ a ∷ b ∷ []) selected ≡ b)
        × (select_package fl balance price (order ++ b ∷ a ∷ []) selected ≡ a)
  unfolding select_package
  select_package_order [] selected a b rich_a rich_b =
      (ground (arith, rich_a, rich_b), ground (arith, rich_a, rich_b))
  select_package_order (p ∷ ps) selected a b rich_a rich_b =
      select_package_order ps (if affords fl balance price p then p else selected) a b rich_a rich_b
