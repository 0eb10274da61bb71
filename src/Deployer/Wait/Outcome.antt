-- ===== src/Deployer/Wait/Outcome.antt =====
-- When `Wait` (grid-client/deployer/deployer.go) succeeds.
use tfgrid_sdk_go.Prelude.{
  ℕ, ◌+◌, ◌≡◌, Bool, true, false, ◌&&◌, List, [], ◌∷◌, none, ok, Result-cases, arith, inl, inr,
  ◌==◌, length, keep, All, Any, here, there, Bool-cases, if◌then◌else◌,
}
use tfgrid_sdk_go.Deployer.Zos.{
  Workload, ResultState, state_init, state_unchanged, state_error, state_ok, state_deleted,
  state_paused,
}
use tfgrid_sdk_go.Deployer.World.{Attempt}
use tfgrid_sdk_go.Deployer.Wait.{
  is_expected, count_state, count_ok, Progress, decide, progress_after, retry, wait,
}

abbrev pub is_good : ResultState → Bool
is_good state_ok = true
is_good state_init = false
is_good state_unchanged = false
is_good state_error = false
is_good state_deleted = false
is_good state_paused = false

-- A state that is not one of the four final errors.
abbrev pub IsPassable : ResultState → Type 0
IsPassable state_ok = Unit
IsPassable state_init = Unit
IsPassable state_unchanged = ⊥
IsPassable state_error = ⊥
IsPassable state_deleted = ⊥
IsPassable state_paused = ⊥

-- The workloads that are waited for and good.
abbrev pub deployed : List (ℕ × ℕ) → List Workload → List Workload
deployed versions = keep (λ wl. is_expected versions wl && is_good wl.result_state)

count_state-ok :
    (wl : Workload) (s : ResultState) (n : ℕ) {m : ℕ}
    → count_state wl s n ≡ ok m
    → IsPassable s × (m ≡ n + (if is_good s then 1 else 0))
unfolding count_state
count_state-ok wl state_ok n h = (tt, ground (arith, h))
count_state-ok wl state_init n h = (tt, ground (arith, h))
count_state-ok wl state_unchanged n h = absurd cc
count_state-ok wl state_error n h = absurd cc
count_state-ok wl state_deleted n h = absurd cc
count_state-ok wl state_paused n h = absurd cc

-- What the loop over the changes has checked and counted.
count_ok-ok :
    (versions : List (ℕ × ℕ)) (wls : List Workload) (n : ℕ) {m : ℕ}
    → count_ok versions wls n ≡ ok m
    → All (λ wl. is_expected versions wl ≡ true → IsPassable wl.result_state) wls
      × (m ≡ n + length (deployed versions wls))
unfolding count_ok
count_ok-ok versions [] n h = (tt, ground (arith, h))
count_ok-ok versions (wl ∷ wls) n {m} h = elim (Bool-cases (is_expected versions wl)) [
  | inl e ↦ elim (Result-cases (count_state wl wl.result_state n)) [
    | inl (counted, c) ↦
        let rest = count_ok-ok versions wls counted {m = m} (ground (arith, h, e, c)) in
        let now = count_state-ok wl wl.result_state n c in
        ((λ _. now.0, rest.0), ground (arith, rest.1, now.1, e))
    | inr (x, c) ↦ absurd (ground (arith, h, e, c))
  ]
  | inr e ↦
      let rest = count_ok-ok versions wls n {m = m} (ground (arith, h, e)) in
      ((λ t. absurd cc, rest.0), ground (arith, rest.1, e))
]

-- An attempt whose answer settles the wait: each workload that is waited for is good or on its way,
-- and as many are good as are waited for.
abbrev pub IsDeployed : List (ℕ × ℕ) → Attempt → Type 0
IsDeployed versions a =
    (wls : List Workload) × (a.changes ≡ ok wls)
    × All (λ wl. is_expected versions wl ≡ true → IsPassable wl.result_state) wls
    × (length (deployed versions wls) ≡ length versions)

retry-none :
    (versions : List (ℕ × ℕ)) (last : Progress) (attempts : List Attempt)
    → retry versions last attempts ≡ none
    → Any (IsDeployed versions) attempts
unfolding retry decide
retry-none versions last [] h = absurd cc
retry-none versions last (a ∷ later) h = elim (Result-cases a.changes) [
  | inr (e, c) ↦ absurd (ground (arith, h, c))
  | inl (wls, c) ↦ elim (Result-cases (count_ok versions wls 0)) [
    | inr (wl, bad) ↦ absurd (ground (arith, h, bad, c))
    | inl (m, counted) ↦ elim (Bool-cases (m == length versions)) [
      | inl all ↦ here (
        wls,
        c,
        (count_ok-ok versions wls 0 counted).0,
        ground (arith, (count_ok-ok versions wls 0 counted).1, all),
      )
      | inr few ↦ there (
          retry-none versions (progress_after last a.time (ok m)) later
            (ground (arith, h, counted, c, few)))
    ]
  ]
]

-- If `Wait` succeeds, then after some attempt the node has answered, no workload that is waited for,
-- at its version, is in one of the four error states, and as many of those are good as are waited for.
pub wait-none :
    (versions : List (ℕ × ℕ)) (start : ℕ) (attempts : List Attempt)
    → wait versions start attempts ≡ none
    → Any (IsDeployed versions) attempts
unfolding wait
wait-none versions start attempts h = retry-none versions _ attempts h
