-- ===== src/Farmerbot/Env.antt =====
-- What the farmerbot calls and does not implement: the chain client (farmerbot/internal/substrate.go
-- over tfchain-client-go), the nodes' own daemon over rmb (rmb.go, pkg/types.go), and Go's float64.
-- Each is a record of functions, which the operations take as a parameter.
pub mod Laws
use tfgrid_sdk_go.Prelude.{ℕ, Bool, Option, List, Result}
use tfgrid_sdk_go.Prelude.Int.{ℤ}

-- `substrate.ErrNotFound`, or any other error of the client.
pub data ChainError : Type 0 where
  not_found : ChainError
  other : ℕ → ChainError

-- The fields of `substrate.Node` that are read.
pub record ChainNode : Type 0 where
  pub id : ℕ
  pub twin_id : ℕ
  pub chain_hru : ℕ
  pub chain_sru : ℕ
  pub chain_cru : ℕ
  pub chain_mru : ℕ
  pub is_certified : Bool
  pub has_public_config : Bool

-- The fields of `substrate.Farm` that are read; `public_ips` is the number of the farm's addresses.
pub record Farm : Type 0 where
  pub farm_id : ℕ
  pub farm_twin_id : ℕ
  pub dedicated_farm : Bool
  pub public_ips : ℕ

pub record PowerTarget : Type 0 where
  pub state_is_up : Bool
  pub state_is_down : Bool
  pub target_is_up : Bool
  pub target_is_down : Bool

-- One call of `SetNodePowerTarget`: the node and whether it is to be up.
pub record TargetCall : Type 0 where
  pub node_id : ℕ
  pub up : Bool

-- The chain answers by the node and by the power targets that were set before.
-- `GetNodeRentContract` gives a contract beside its error, as in Go.
pub record Substrate : Type 0 where
  pub get_farm : ℕ → Result ChainError Farm
  pub get_nodes : ℕ → Result ChainError (List ℕ)
  pub get_chain_node : ℕ → Result ChainError ChainNode
  pub get_dedicated_node_price : ℕ → Result ChainError ℕ
  pub get_node_rent_contract : ℕ → ℕ × Option ChainError
  pub get_node_contracts : ℕ → Result ChainError (List ℕ)
  pub get_power_target : List TargetCall → ℕ → Result ChainError PowerTarget
  pub set_node_power_target : List TargetCall → ℕ → Bool → Option ChainError

-- `pkg.Capacity`
pub record ZosCapacity : Type 0 where
  pub cru : ℕ
  pub sru : ℕ
  pub hru : ℕ
  pub mru : ℕ
  pub ipv4u : ℕ

-- `pkg.Counters`
pub record Counters : Type 0 where
  pub total : ZosCapacity
  pub used : ZosCapacity
  pub system : ZosCapacity

-- `pkg.GPU`; vendors and devices are only compared, so numbers stand for the texts.
pub record Gpu : Type 0 where
  pub vendor : ℕ
  pub device : ℕ

-- `pkg.PoolMetrics`
pub record PoolMetrics : Type 0 where
  pub size : ℕ
  pub pool_used : ℕ

-- The interface `RMB`, by the twin of the node that is asked.
pub record Rmb : Type 0 where
  pub statistics : ℕ → Result ℕ Counters
  pub get_storage_pools : ℕ → Result ℕ (List PoolMetrics)
  pub list_gpus : ℕ → Result ℕ (List Gpu)

-- A float64 is its bit pattern.
abbrev pub Float64 : Type 0
Float64 = ℕ

-- Go's operations on float64, its conversions and `math.Ceil`.
pub record FloatOps : Type 0 where
  pub of_uint64 : ℕ → Float64
  pub of_int8 : ℤ → Float64
  pub to_uint64 : Float64 → ℕ
  pub float_mul : Float64 → Float64 → Float64
  pub float_div : Float64 → Float64 → Float64
  pub float_sub : Float64 → Float64 → Float64
  pub float_lt : Float64 → Float64 → Bool
  pub float_eq : Float64 → Float64 → Bool
  pub ceil : Float64 → Float64
