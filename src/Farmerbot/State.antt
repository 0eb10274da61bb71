-- ===== src/Farmerbot/State.antt =====
-- farmerbot/internal/state.go: the state and its list of nodes, and `Config` of types.go.
-- `calls` is the model's record of the power targets set on the chain, the last one first.
pub mod Lookup
use tfgrid_sdk_go.Prelude.{
  ℕ, Bool, false, ◌||◌, List, [], ◌∷◌, ◌++◌, Option, none, some, Result, ok, err, keep, ◌==◌,
  if◌then◌else◌,
}
use tfgrid_sdk_go.Prelude.Int.{ℤ}
use tfgrid_sdk_go.Farmerbot.Env.{ChainError, Farm, TargetCall, Float64}
use tfgrid_sdk_go.Farmerbot.Node.{PowerState, state_eq, Node, can_shut_down}

pub record Thresholds : Type 0 where
  pub cru_threshold : Float64
  pub sru_threshold : Float64
  pub mru_threshold : Float64
  pub hru_threshold : Float64

pub record PowerConfig : Type 0 where
  pub wake_up_threshold : Thresholds
  pub periodic_wake_up_start : ℕ
  pub periodic_wake_up_limit : ℕ
  pub over_provision_cpu : ℤ

pub record Config : Type 0 where
  pub config_farm_id : ℕ
  pub included_nodes : List ℕ
  pub excluded_nodes : List ℕ
  pub priority_nodes : List ℕ
  pub never_shut_down_nodes : List ℕ
  pub power : PowerConfig
  pub continue_on_powering_on_err : Bool

pub record State : Type 0 where
  pub farm : Farm
  pub nodes : List Node
  pub config : Config
  pub calls : List TargetCall

-- One constructor for each error that the package makes; errors of the chain and of rmb are wrapped.
pub data Error : Type 0 where
  node_not_found : ℕ → Error
  invalid_node_id : Error
  invalid_twin_id : Error
  chain_error : ChainError → Error
  rmb_error : ℕ → Error
  set_target_failed : ChainError → Error
  never_shut_down_node : Error
  public_config_node : Error
  claimed_node : Error
  rented_node : Error
  contracted_node : Error
  used_node : Error
  wakeup_duration : Error
  last_node_on : Error
  demand_unmet : Error
  not_enough_public_ips : Error
  no_suitable_node : Error
  power_on_found_failed : Error
  over_provision_range : Error
  unauthorized : Error
  farm_id_required : Error
  too_few_nodes : Error
  node_id_required : Error
  twin_id_required : Error
  total_required : Error
  threshold_range : Error
  included_and_excluded : ℕ → Error
  node_exists : Error
  node_excluded : Error
  not_enough_balance : Error
  divide_by_zero : Error

-- `(s *state) getNode`, less the index, which no caller reads.
unfoldable pub get_node : List Node → ℕ → Option Node
get_node [] node_id = none
get_node (n ∷ ns) node_id = if n.id == node_id then some n else get_node ns node_id

unfoldable pub add_node : List Node → Node → List Node
add_node ns node = ns ++ node ∷ []

unfoldable pub delete_node : List Node → ℕ → List Node
delete_node [] node_id = []
delete_node (n ∷ ns) node_id = if n.id == node_id then ns else n ∷ delete_node ns node_id

unfoldable pub update_node : List Node → Node → Result Error (List Node)
update_node [] node = err (node_not_found node.id)
update_node (n ∷ ns) node =
    let rest = update_node ns node in
    if n.id == node.id
    then ok (node ∷ ns)
    else (elim rest [ ok ns' ↦ ok (n ∷ ns') | err e ↦ err e ])

abbrev contains_state : List PowerState → PowerState → Bool
contains_state [] s = false
contains_state (x ∷ xs) s = state_eq x s || contains_state xs s

unfoldable pub filter_nodes_power : List PowerState → List Node → List Node
filter_nodes_power states = keep (λ n. contains_state states n.power_state)

unfoldable pub filter_allowed_nodes_to_shut_down : ℕ → List Node → List Node
unfolding can_shut_down
filter_allowed_nodes_to_shut_down now = keep (can_shut_down now)
