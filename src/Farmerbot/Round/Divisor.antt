-- ===== src/Farmerbot/Round/Divisor.antt =====
-- The odds of a random wake up in `shouldWakeUp` (farmerbot/internal/farmerbot.go).
use tfgrid_sdk_go.Prelude.{
  ℕ, ◌+◌, ◌-◌, ◌*◌, ◌/◌, ◌%◌, ◌≤◌, ◌<◌, ◌≡◌, refl, ap, ◌∙◌, inl, inr, arith, leb, ◌==◌, some, ok,
  err, if◌then◌else◌, Bool-cases,
}
use Prim.Native.Nat.{min}
use native.Mathlib.Nat.{min-eq_left, min-eq_right, div-lt_iff_lt-mul, mul-div_cancel}
use tfgrid_sdk_go.Farmerbot.State.{divide_by_zero}
use tfgrid_sdk_go.Farmerbot.Round.{random_divisor, random_wake_up}

-- The quotient in the divisor, where it is not too large.
quotient_small :
    (limit n : ℕ)
    → 1 ≤ limit
    → 1 ≤ n
    → n ≤ 839 * limit + 1
    → (1 ≤ min limit n) × (10 * (n - 1) / min limit n < 8391)
quotient_small limit n some_limit some_nodes few = elim (Bool-cases (leb limit n)) [
  | inl h ↦
      rw (min-eq_left {n = limit} {m = n} (ground arith))
        (some_limit, (div-lt_iff_lt-mul some_limit).1 (omega arith))
  | inr h ↦
      rw (min-eq_right {n = n} {m = limit} (ground arith))
        (some_nodes, (div-lt_iff_lt-mul some_nodes).1 (omega arith))
]

-- The odds for each quotient.
abbrev odds : ℕ → ℕ
odds q = if leb q 8400 then (8400 - q) / 10 else (q - 8400) / 10

random_divisor-odds :
    (limit n : ℕ)
    → 1 ≤ min limit n
    → random_divisor limit n ≡ some (odds (10 * (n - 1) / min limit n))
unfolding random_divisor
random_divisor-odds limit n h = ground arith

-- With at least one wake up allowed at once and one node, and no more than 839 nodes for each such
-- wake up, and one more, the odds are
-- one in some number from 1 to 840, so that the program does not divide by zero.
pub random_wake_up_total :
    (limit nodes_len draw : ℕ)
    → 1 ≤ limit
    → 1 ≤ nodes_len
    → nodes_len ≤ 839 * limit + 1
    → (d : ℕ) × (1 ≤ d) × (d ≤ 840) × (random_wake_up limit nodes_len draw ≡ ok (draw % d == 0))
unfolding random_wake_up
random_wake_up_total limit nodes_len draw some_limit some_nodes few =
    let (one, small) = quotient_small limit nodes_len some_limit some_nodes few in
    (
      odds (10 * (nodes_len - 1) / min limit nodes_len),
      ground arith,
      ground arith,
      rw (random_divisor-odds limit nodes_len one, random_wake_up) (ground arith),
    )

-- With at least one wake up allowed at once, and 840 nodes for each wake up that is allowed at once, and one more, the program divides by zero.
pub random_wake_up_panics :
    (limit draw : ℕ) → 1 ≤ limit → random_wake_up limit (840 * limit + 1) draw ≡ err divide_by_zero
unfolding random_wake_up
random_wake_up_panics limit draw some_limit =
    let least = min-eq_left {n = limit} {m = 840 * limit + 1} (omega arith) in
    rw
      (
        random_divisor-odds limit (840 * limit + 1) (rw least some_limit),
        random_wake_up,
        least,
        exact,
      )
      refl
  where
    exact : 10 * (840 * limit + 1 - 1) / limit ≡ 8400
    exact = ap (λ k. k / limit) (omega arith) ∙ mul-div_cancel 8400 some_limit
