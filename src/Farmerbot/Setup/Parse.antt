-- ===== src/Farmerbot/Setup/Parse.antt =====
-- What `ParseIntoConfig` (farmerbot/parser/parser.go) accepts.
use tfgrid_sdk_go.Prelude.{
  ℕ, ◌≡◌, refl, ◌⊎◌, inl, inr, true, false, List, [], ◌∷◌, Option, none, some, ok, err, arith,
  contains, if◌then◌else◌, Option-cases,
}
use tfgrid_sdk_go.Farmerbot.State.{Config, included_and_excluded}
use tfgrid_sdk_go.Farmerbot.Setup.{check_excluded, check_included, parse_into_config}

check_excluded-contains :
    (i : ℕ) (exs : List ℕ)
    → check_excluded i exs ≡ (if contains exs i then some (included_and_excluded i) else none)
unfolding check_excluded
check_excluded-contains i [] = refl
check_excluded-contains i (ex ∷ exs) = ground (arith, check_excluded-contains i exs)

-- The first number of `xs` that is in `ys`.
pub first_common : List ℕ → List ℕ → Option ℕ
first_common [] ys = none
first_common (x ∷ xs) ys = if contains ys x then some x else first_common xs ys

pub check_included-first_common :
    (is exs : List ℕ)
    → check_included is exs
      ≡ (elim (first_common is exs) [ none ↦ none | some k ↦ some (included_and_excluded k) ])
unfolding check_included first_common
check_included-first_common [] exs = refl
check_included-first_common (i ∷ is) exs =
    ground (arith, check_excluded-contains i exs, check_included-first_common is exs)

-- No number of `xs` is in `ys` where there is no first one.
pub first_common-none :
    (xs ys : List ℕ) (k : ℕ)
    → first_common xs ys ≡ none
    → contains xs k ≡ true
    → contains ys k ≡ false
unfolding first_common
first_common-none [] ys k h i = cc
first_common-none (x ∷ xs) ys k h i = ground (arith, first_common-none xs ys k)

-- The number that is found is in both.
pub first_common-some :
    (xs ys : List ℕ) (k : ℕ)
    → first_common xs ys ≡ some k
    → (contains xs k ≡ true) × (contains ys k ≡ true)
unfolding first_common
first_common-some [] ys k h = cc
first_common-some (x ∷ xs) ys k h = ground (arith, first_common-some xs ys k)

-- A configuration is accepted as it is and no node is both included and excluded, or the error names
-- a node that is.
pub parse_into_config_outcome :
    (c : Config)
    → ((parse_into_config c ≡ ok c)
        × ((k : ℕ) → contains c.included_nodes k ≡ true → contains c.excluded_nodes k ≡ false))
      ⊎ ((k : ℕ) × (parse_into_config c ≡ err (included_and_excluded k))
          × (contains c.included_nodes k ≡ true)
          × (contains c.excluded_nodes k ≡ true))
unfolding parse_into_config
parse_into_config_outcome c = elim (Option-cases (first_common c.included_nodes c.excluded_nodes)) [
  | inl apart ↦ inl (
    ground (arith, apart, same),
    λ k listed. first_common-none c.included_nodes c.excluded_nodes k apart listed,
  )
  | inr (k, e) ↦
      let (listed, barred) = first_common-some c.included_nodes c.excluded_nodes k e in
      inr (k, ground (arith, e, same), listed, barred)
]
  where
    open c use {included_nodes, excluded_nodes}

    same :
        check_included included_nodes excluded_nodes
        ≡ (elim (first_common included_nodes excluded_nodes) [
          | none ↦ none
          | some k ↦ some (included_and_excluded k)
        ])
    same = check_included-first_common included_nodes excluded_nodes
