-- ===== src/Farmerbot/Serve.antt =====
-- The requests that the farmerbot serves: `serve`, `authorize` and `validateAccountEnoughBalance` of
-- farmerbot/internal/farmerbot.go, and `createNodeReport` of report.go. A payload is decoded before.
pub mod Access
pub mod Ids
pub mod Report
use tfgrid_sdk_go.Prelude.{
  ℕ, ◌-◌, ◌*◌, ◌/◌, ◌%◌, Bool, true, false, not, ◌||◌, ◌&&◌, List, [], ◌∷◌, Option, none, some,
  Result, ok, err, ltb, ◌==◌, length, contains, if◌then◌else◌,
}
use tfgrid_sdk_go.Farmerbot.Capacity.{Capacity, u64_mod}
use tfgrid_sdk_go.Farmerbot.Env.{ChainError, not_found, Substrate, Rmb, FloatOps}
use tfgrid_sdk_go.Farmerbot.Node.{PowerState, Node, since}
use tfgrid_sdk_go.Farmerbot.State.{
  State, Error, chain_error, unauthorized, node_exists, node_excluded, not_enough_balance,
  divide_by_zero, get_node, add_node, delete_node,
}
use tfgrid_sdk_go.Farmerbot.Power.{power_on, power_off}
use tfgrid_sdk_go.Farmerbot.Manage.{calculate_resource_usage}
use tfgrid_sdk_go.Farmerbot.FindNode.{NodeFilterOption, find_node}
use tfgrid_sdk_go.Farmerbot.Refresh.{fetch_node}

-- A balance of the chain with its error: `getAccountBalanceInTFT` goes on where the account does not
-- exist, which stands as `not_found`. A balance is not negative.
abbrev pub Balance : Type 0
Balance = ℕ × Option ChainError

abbrev get_account_balance_in_tft : FloatOps → Balance → Result Error ℕ
get_account_balance_in_tft fl (free, some (ChainError.other e)) =
    err (chain_error (ChainError.other e))
get_account_balance_in_tft fl (free, some not_found) =
    ok (fl.float_div (fl.of_uint64 free) (fl.of_uint64 10_000_000))
get_account_balance_in_tft fl (free, none) =
    ok (fl.float_div (fl.of_uint64 free) (fl.of_uint64 10_000_000))

-- The required balance is 0.002.
unfoldable pub validate_account_enough_balance : FloatOps → Balance → Option Error
validate_account_enough_balance fl b = elim (get_account_balance_in_tft fl b) [
  | err e ↦ some e
  | ok balance ↦
      if fl.float_lt balance (fl.float_div (fl.of_uint64 2) (fl.of_uint64 1000))
      then some not_enough_balance
      else none
]

-- The handler `includenode`.
unfoldable pub include_node : Substrate → Rmb → ℕ → ℕ → State → Option Error × State
include_node sub rmb now node_id f = elim (get_node f.nodes node_id) [
  | some node ↦ (some node_exists, f)
  | none ↦
      if contains config.excluded_nodes node_id
        || length config.excluded_nodes == 0 && not (contains config.included_nodes node_id)
      then (some node_excluded, f)
      else (elim (fetch_node sub rmb f.calls now node_id config.continue_on_powering_on_err
          (contains config.never_shut_down_nodes node_id) f.farm.dedicated_farm) [
            | err e ↦ (some e, f)
            | ok node ↦ (none, record f { nodes = add_node f.nodes node })
          ])
]
  where
    open f use {config}

-- After the switch the node is taken from the farmerbot.
abbrev pub release : ℕ → Option Error × State → Option Error × State
release node_id (none, f) = (none, record f { nodes = delete_node f.nodes node_id })
release node_id (some e, f) = (some e, f)

-- The handler `poweroff`.
unfoldable pub serve_power_off :
    FloatOps → Substrate → Balance → ℕ → ℕ → State → Option Error × State
serve_power_off fl sub balance now node_id f = elim (validate_account_enough_balance fl balance) [
  | some e ↦ (some e, f)
  | none ↦ release node_id (power_off sub now node_id f)
]

-- The handler `poweron`.
unfoldable pub serve_power_on :
    FloatOps → Substrate → Balance → ℕ → ℕ → State → Option Error × State
serve_power_on fl sub balance now node_id f = elim (validate_account_enough_balance fl balance) [
  | some e ↦ (some e, f)
  | none ↦ release node_id (power_on sub now node_id f)
]

-- The requests of the three routers, less those that only read.
pub data Request : Type 0 where
  findnode : NodeFilterOption → Request
  includenode : ℕ → Request
  poweroff : ℕ → Request
  poweron : ℕ → Request

-- `authorize`: the router of the power manager serves the farm's own twin only.
unfoldable pub authorize : ℕ → ℕ → Option Error
authorize own_twin twin_id = if twin_id == own_twin then none else some unauthorized

abbrev pub authorized : ℕ → ℕ → State → Option Error × State → Option Error × State
authorized own_twin twin_id f r = elim (authorize own_twin twin_id) [
  | some e ↦ (some e, f)
  | none ↦ r
]

abbrev pub drop_value : Result Error ℕ × State → Option Error × State
drop_value (ok k, f) = (none, f)
drop_value (err e, f) = (some e, f)

unfoldable pub serve :
    FloatOps
    → (List Node → List Node)
    → Substrate
    → Rmb
    → Balance
    → ℕ
    → ℕ
    → ℕ
    → Request
    → State
    → Option Error × State
serve fl sort sub rmb balance own_twin now twin_id (findnode o) f =
    drop_value (find_node fl sort sub now o f)
serve fl sort sub rmb balance own_twin now twin_id (includenode k) f =
    authorized own_twin twin_id f (include_node sub rmb now k f)
serve fl sort sub rmb balance own_twin now twin_id (poweroff k) f =
    authorized own_twin twin_id f (serve_power_off fl sub balance now k f)
serve fl sort sub rmb balance own_twin now twin_id (poweron k) f =
    authorized own_twin twin_id f (serve_power_on fl sub balance now k f)

pub record NodeReport : Type 0 where
  pub report_id : ℕ
  pub report_state : PowerState
  pub rented : Bool
  pub contracted : Bool
  pub report_dedicated : Bool
  pub report_public_config : Bool
  pub cru_usage_percentage : ℕ
  pub sru_usage_percentage : ℕ
  pub mru_usage_percentage : ℕ
  pub hru_usage_percentage : ℕ
  pub random_wake_ups : ℕ
  pub since_power_state_changed : ℕ
  pub since_last_time_awake : ℕ
  pub report_last_time_periodic_wake_up : ℕ
  pub until_claimed_resources_timeout : ℕ

-- `uint8(100 * used / total)`: the product wraps at 2 ^ 64, the quotient at 256.
abbrev pub percentage : ℕ → ℕ → ℕ
percentage used total = 100 * used % u64_mod / total % 256

-- The time since `t`, or 0 where `t` was never set.
abbrev pub since_set : ℕ → ℕ → ℕ
since_set now t = if t == 0 then 0 else since now t

-- The report for the resources that are used and those in total; a division by a total of 0 is a
-- panic.
unfoldable pub report_of : ℕ → Node → Capacity → Capacity → Result Error NodeReport
report_of now n used total =
    if total.cru == 0 || total.sru == 0 || total.mru == 0
    then err divide_by_zero
    else ok (record {
      report_id = n.id;
      report_state = n.power_state;
      rented = n.has_active_rent_contract;
      contracted = n.has_active_contracts;
      report_dedicated = n.dedicated;
      report_public_config = n.has_public_config;
      cru_usage_percentage = percentage used.cru total.cru;
      sru_usage_percentage = percentage used.sru total.sru;
      mru_usage_percentage = percentage used.mru total.mru;
      hru_usage_percentage = if total.hru == 0 then 0 else percentage used.hru total.hru;
      random_wake_ups = n.times_random_wake_ups;
      since_power_state_changed = since_set now n.last_time_power_state_changed;
      since_last_time_awake = since_set now n.last_time_awake;
      report_last_time_periodic_wake_up = n.last_time_periodic_wake_up;
      until_claimed_resources_timeout = n.timeout_claimed_resources - now;
    })

-- `createNodeReport`
unfoldable pub create_node_report : ℕ → Node → Result Error NodeReport
unfolding report_of
create_node_report now n =
    let (used, total) = calculate_resource_usage (n ∷ []) in report_of now n used total
