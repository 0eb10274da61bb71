-- ===== src/Calculator.antt =====
-- grid-client/calculator/calculate.go: what resources cost in a month, and the discount. The chain
-- client and float64 are parameters. Resources and balances are not negative.
pub mod Packages
mod Tests
use tfgrid_sdk_go.Prelude.{
  ℕ, ◌+◌, ◌/◌, Bool, true, false, List, [], ◌∷◌, Result, ok, err, ◌>>=◌, if◌then◌else◌,
}

-- Go's operations on float64; `ratio a b` is the constant of the source that is nearest to a / b.
pub record Floats (F : Type 0) : Type 0 where
  pub of_int : ℕ → F
  pub ratio : ℕ → ℕ → F
  pub plus : F → F → F
  pub minus : F → F → F
  pub times : F → F → F
  pub over : F → F → F
  pub less : F → F → Bool
  pub max : F → F → F
  pub min : F → F → F

-- The fields of `substrate.PricingPolicy` that are read.
pub record PricingPolicy : Type 0 where
  pub cu_value : ℕ
  pub su_value : ℕ
  pub ipu_value : ℕ
  pub dedicated_nodes_discount : ℕ

-- The calls of the chain client, with the number of an error; the balance is that of the identity.
pub record Prices : Type 0 where
  pub get_tft_price : Result ℕ ℕ
  pub get_pricing_policy : ℕ → Result ℕ PricingPolicy
  pub get_balance : Result ℕ ℕ

abbrev default_pricing_policy_id : ℕ
default_pricing_policy_id = 1

-- The keys of `discountPackages`.
pub data Package : Type 0 where
  none_package default_package bronze silver gold : Package

module _ {F : Type 0} (fl : Floats F) where
  open fl use {of_int, ratio, plus, minus, times, over, less, max, min}

  unfoldable pub calculate_su : ℕ → ℕ → F
  calculate_su hru sru = of_int (hru / 1200 + sru / 200)

  unfoldable pub calculate_cu : ℕ → ℕ → F
  calculate_cu cru mru =
      let cu1 = max (of_int (mru / 4)) (of_int (cru / 2)) in
      let cu2 = max (of_int (mru / 8)) (of_int cru) in
      let cu3 = max (of_int (mru / 2)) (of_int (cru / 4)) in min (min cu1 cu2) cu3

  unfoldable pub calculate_cost : Prices → ℕ → ℕ → ℕ → ℕ → Bool → Bool → Result ℕ F
  calculate_cost chain cru mru hru sru public_ip certified = do
    tft_price ← chain.get_tft_price
    policy ← chain.get_pricing_policy default_pricing_policy_id
    ok (
        over
          (over
            (times
              (times
                (times
                  (plus
                    (plus (times (calculate_cu cru mru) (of_int policy.cu_value))
                      (times (calculate_su hru sru) (of_int policy.su_value)))
                    (times (if public_ip then of_int 1 else of_int 0) (of_int policy.ipu_value)))
                  (if certified then ratio 5 4 else of_int 1))
                (of_int 24))
              (of_int 30))
            (of_int tft_price))
          (of_int 1000))

  unfoldable pub duration : Package → F
  duration none_package = of_int 0
  duration default_package = ratio 3 2
  duration bronze = of_int 3
  duration silver = of_int 6
  duration gold = of_int 18

  unfoldable pub discount : Package → F
  discount none_package = of_int 0
  discount default_package = of_int 20
  discount bronze = of_int 30
  discount silver = of_int 40
  discount gold = of_int 60

  -- Whether the balance is above the price for the duration of the package.
  unfoldable pub affords : F → F → Package → Bool
  affords balance price pkg = less (times price (duration pkg)) balance

  -- The loop over `discountPackages`, in the order in which the map is ranged over, for one of the
  -- two prices and the package selected so far.
  unfoldable pub select_package : F → F → List Package → Package → Package
  select_package balance price [] selected = selected
  select_package balance price (pkg ∷ pkgs) selected =
      select_package balance price pkgs (if affords balance price pkg then pkg else selected)

  abbrev reduced : F → Package → F
  reduced price pkg =
      over (minus price (times price (over (discount pkg) (of_int 100)))) (of_int 10_000_000)

  -- The dedicated and the shared price; `order` is the order of the map.
  unfoldable pub calculate_discount : Prices → List Package → F → Result ℕ (F × F)
  calculate_discount chain order cost = do
    tft_price ← chain.get_tft_price
    policy ← chain.get_pricing_policy default_pricing_policy_id
    account_balance ← chain.get_balance
    ok (
        let dedicated =
          minus cost (times cost (over (of_int policy.dedicated_nodes_discount) (of_int 100))) in
        let balance =
          times (times (over (of_int tft_price) (of_int 1000)) (of_int account_balance))
            (of_int 10_000_000) in
        (
          reduced dedicated (select_package balance dedicated order none_package),
          reduced cost (select_package balance cost order none_package),
        ))
