-- ===== src/Deployer/Wait/Deadline.antt =====
-- That `Wait` (grid-client/deployer/deployer.go) decides while its retries last.
use tfgrid_sdk_go.Prelude.{
  ℕ, zero, suc, ◌+◌, ◌-◌, ◌*◌, ◌≤◌, ◌<◌, ◌≡◌, ◌≢◌, sym, ◌∙◌, ap, false, List, [], ◌∷◌, some, Result,
  ok, err, Result-cases, arith, inl, inr, ltb, ◌==◌, length, All, Any, here, there, Bool-cases,
  subst, Any-map,
}
use tfgrid_sdk_go.Deployer.Zos.{Workload}
use tfgrid_sdk_go.Deployer.World.{Attempt, in_progress}
use tfgrid_sdk_go.Deployer.Wait.{
  progress_limit, count_ok, Progress, next_progress, is_stalled, decide, retry, wait,
}

-- The attempts follow each other, at most `gap` apart, from the time `t` on.
abbrev pub IsSpaced : ℕ → ℕ → List Attempt → Type 0
IsSpaced gap t [] = Unit
IsSpaced gap t (a ∷ later) = (t ≤ a.time) × (a.time ≤ t + gap) × IsSpaced gap a.time later

-- An answer in which no more workloads are good than are waited for.
abbrev pub IsBounded : ℕ → Result Workload ℕ → Type 0
IsBounded number (ok good) = good ≤ number
IsBounded number (err wl) = Unit

abbrev pub CountsAtMost : List (ℕ × ℕ) → Attempt → Type 0
CountsAtMost versions a =
    (wls : List Workload)
    → a.changes ≡ ok wls
    → IsBounded (length versions) (count_ok versions wls 0)

-- The time until the end of the wait, where `j` workloads are still to become good.
budget : ℕ → ℕ → ℕ
budget zero step = step
budget (suc j) step = step + budget j step

budget-eq : (j step : ℕ) → budget j step ≡ (j + 1) * step
unfolding budget
budget-eq zero step = omega arith
budget-eq (suc j) step = ground (arith, budget-eq j step)

budget-step : (j k step : ℕ) → j < k → step + budget j step ≤ budget k step
unfolding budget
budget-step j zero step l = absurd (ground (arith, l))
budget-step j (suc k) step l = elim (Bool-cases (j == k)) [
  | inl e ↦ ground (arith, e)
  | inr e ↦ ground (arith, l, e, budget-step j k step)
]

budget-least : (j step : ℕ) → step ≤ budget j step
unfolding budget
budget-least zero step = omega arith
budget-least (suc j) step = omega arith

module _ (versions : List (ℕ × ℕ)) (gap : ℕ) where
  abbrev step : ℕ
  step = progress_limit + gap

  -- When the wait is over at the latest.
  deadline : Progress → ℕ
  deadline last = last.at_time + budget (length versions - last.good) step

  -- An attempt without an end leaves the deadline where it was, or brings it forward.
  deadline-next :
      (last : Progress) (t now good : ℕ)
      → t ≤ now
      → now ≤ t + gap
      → t ≤ last.at_time + progress_limit
      → good ≤ length versions
      → is_stalled last now good ≡ false
      → (now ≤ (next_progress last now good).at_time + progress_limit)
        × (deadline (next_progress last now good) ≤ deadline last)
        × (now ≤ deadline last)
  unfolding deadline
  deadline-next last t now good l1 l2 l3 l4 h = elim (Bool-cases (ltb last.good good)) [
    | inl grows ↦ rw grows (
      omega (arith, l1),
      ground (
        arith,
        l1,
        l2,
        l3,
        l4,
        grows,
        budget-step (length versions - good) (length versions - last.good) (progress_limit + gap)
            (ground (arith, grows, l4)),
      ),
      omega (arith, l1, l2, l3, budget-least (length versions - last.good) (progress_limit + gap)),
    )
    | inr same ↦ rw same (
      ground (arith, h, same),
      ground arith,
      omega (arith, l1, l2, l3, budget-least (length versions - last.good) (progress_limit + gap)),
    )
  ]

  -- The attempt after the deadline is a later one.
  tail :
      (d d' : ℕ) (a : Attempt) (later : List Attempt)
      → a.time ≤ d
      → d' ≤ d
      → Any (λ b. d < b.time) (a ∷ later)
      → Any (λ b. d' < b.time) later
  tail d d' a later l m (here past) = absurd (omega (arith, l, past))
  tail d d' a later l m (there i) = Any-map later (λ b past. omega (arith, m, past)) i

  retry_decides :
      (last : Progress) (t : ℕ) (attempts : List Attempt)
      → IsSpaced gap t attempts
      → t ≤ last.at_time + progress_limit
      → All (CountsAtMost versions) attempts
      → Any (λ a. deadline last < a.time) attempts
      → retry versions last attempts ≢ some in_progress
  unfolding retry decide
  retry_decides last t [] spaced l bounded past h = elim past [ ]
  retry_decides last t (a ∷ later) (s0, s1, spaced) l bounded past h =
      elim (Result-cases a.changes) [
        | inr (e, c) ↦ ground (arith, h, c)
        | inl (wls, c) ↦ elim (Result-cases (count_ok versions wls 0)) [
          | inr (wl, bad) ↦ ground (arith, h, bad, c)
          | inl (good, counted) ↦ elim (Bool-cases (good == length versions)) [
            | inl all ↦ ground (arith, h, counted, c, all)
            | inr few ↦ elim (Bool-cases (is_stalled last a.time good)) [
              | inl stalled ↦ ground (arith, h, counted, c, few, stalled)
              | inr goes_on ↦
                  let next =
                    deadline-next last t a.time good s0 s1 l
                      (subst (IsBounded (length versions)) counted (bounded.0 wls c)) goes_on in
                  retry_decides (next_progress last a.time good) a.time later spaced next.0
                    bounded.1 (tail _ _ a later next.2 next.1 past)
                    (ground (arith, h, counted, c, few, goes_on))
            ]
          ]
        ]
      ]

-- If the attempts follow each other with at most `gap` milliseconds between them, no answer has more
-- good workloads than are waited for, and one attempt comes later than four minutes and a gap for
-- each workload and once more, `Wait` does not end by running out of attempts: it has succeeded,
-- failed for good or timed out before.
pub wait_decides :
    (versions : List (ℕ × ℕ)) (start gap : ℕ) (attempts : List Attempt)
    → IsSpaced gap start attempts
    → All (CountsAtMost versions) attempts
    → Any (λ a. start + (length versions + 1) * (progress_limit + gap) < a.time) attempts
    → wait versions start attempts ≢ some in_progress
unfolding wait deadline
wait_decides versions start gap attempts spaced bounded past =
    retry_decides versions gap (record { at_time = start; good = 0 }) start attempts spaced
      (omega arith) bounded
      (Any-map attempts (λ b l. subst (λ m. start + m < b.time) (sym same) l) past)
  where
    same :
        budget (length versions - 0) (progress_limit + gap)
        ≡ (length versions + 1) * (progress_limit + gap)
    same =
        budget-eq (length versions - 0) (progress_limit + gap)
        ∙ ap (λ n. (n + 1) * (progress_limit + gap)) (omega arith)
