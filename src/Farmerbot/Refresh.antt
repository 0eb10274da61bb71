-- ===== src/Farmerbot/Refresh.antt =====
-- How a node's data is read anew: `(n *node) update` of farmerbot/internal/types.go, `getNode` of
-- state.go and `addOrUpdateNode` of farmerbot.go. `update` works on the node in place, and what it
-- wrote before an error stays written, so an action gives back the node beside its result.
pub mod Target
pub mod Updated
use tfgrid_sdk_go.Prelude.{
  ℕ, Bool, true, false, not, ◌||◌, ◌&&◌, List, [], ◌∷◌, Option, none, some, Result, ok, err, ◌==◌,
  contains, if◌then◌else◌,
}
use tfgrid_sdk_go.Farmerbot.Capacity.{Capacity, empty}
use tfgrid_sdk_go.Farmerbot.Env.{
  ChainError, not_found, ChainNode, PowerTarget, TargetCall, Substrate, Rmb, Counters, Gpu,
  PoolMetrics,
}
use tfgrid_sdk_go.Farmerbot.Node.{
  PowerState, on, waking_up, off, shutting_down, state_eq, Node, update_resources,
  has_claimed_resources,
}
use tfgrid_sdk_go.Farmerbot.State.{
  State, Error, invalid_node_id, invalid_twin_id, chain_error, rmb_error, get_node, add_node,
}
use tfgrid_sdk_go.Farmerbot.Power.{store_node}

abbrev pub Update : Type 0 → Type 0
Update A = Node → Result Error A × Node

infixl 5 ◌>>=◌ ◌>>◌
abbrev pub ◌>>=◌ : {A B : Type 0} → Update A → (A → Update B) → Update B
◌>>=◌ m f n = let (r, n') = m n in elim r [ ok a ↦ f a n' | err e ↦ (err e, n') ]

abbrev pub ◌>>◌ : {A B : Type 0} → Update A → Update B → Update B
m >> k = m >>= λ _. k

abbrev pub raise_if : Bool → Error → Update (Unit {0})
raise_if c e n = (if c then err e else ok tt, n)

abbrev pub modify : (Node → Node) → Update (Unit {0})
modify g n = (ok tt, g n)

-- A call of the chain, and one of the node's daemon, with its error wrapped.
abbrev pub ask : {A : Type 0} → Result ChainError A → Update A
ask (ok a) n = (ok a, n)
ask (err e) n = (err (chain_error e), n)

abbrev pub ask_node : {A : Type 0} → Result ℕ A → Update A
ask_node (ok a) n = (ok a, n)
ask_node (err e) n = (err (rmb_error e), n)

-- `GetNodeRentContract`: the code goes on with the contract when the error is `ErrNotFound`.
abbrev pub rent_contract : ℕ × Option ChainError → Result ChainError ℕ
rent_contract (c, none) = ok c
rent_contract (c, some not_found) = ok c
rent_contract (c, some (ChainError.other e)) = err (ChainError.other e)

abbrev pub is_nil : {A : Type 0} → List A → Bool
is_nil [] = true
is_nil (x ∷ xs) = false

set_state : ℕ → PowerState → Node → Node
set_state now s n = record n { power_state = s; last_time_power_state_changed = now }

set_on : ℕ → Node → Node
set_on now n = record n {
  power_state = on;
  last_time_awake = now;
  last_time_power_state_changed = now;
}

-- The four tests of the power target, one after the other.
unfoldable pub follow_target : ℕ → PowerTarget → Node → Node
unfolding set_state set_on
follow_target now t n =
    let n1 =
      if t.state_is_down && t.target_is_up && not (state_eq n.power_state waking_up)
      then set_state now waking_up n
      else n in
    let n2 =
      if t.state_is_up && t.target_is_up && not (state_eq n1.power_state on)
      then set_on now n1
      else n1 in
    let n3 =
      if t.state_is_up && t.target_is_down && not (state_eq n2.power_state shutting_down)
      then set_state now shutting_down n2
      else n2 in
    if t.state_is_down && t.target_is_down && not (state_eq n3.power_state off)
    then set_state now off n3
    else n3

abbrev pub is_asleep : Node → Bool
is_asleep n = state_eq n.power_state off || state_eq n.power_state waking_up

-- What the chain says about the contracts and the power of a node.
unfoldable pub read_contracts : Substrate → List TargetCall → ℕ → Bool → ℕ → Update (Unit {0})
read_contracts sub calls now dedicated_farm node_id = do
  price ← ask (sub.get_dedicated_node_price node_id)
  modify (λ n. if not (price == 0) || dedicated_farm then record n { dedicated = true } else n)
  contract ← ask (rent_contract (sub.get_node_rent_contract node_id))
  modify (λ n. record n { has_active_rent_contract = not (contract == 0) })
  contracts ← ask (sub.get_node_contracts node_id)
  modify (λ n. record n { has_active_contracts = not (is_nil contracts) })
  target ← ask (sub.get_power_target calls node_id)
  modify (follow_target now target)

-- The part of `update` that reads the chain.
unfoldable pub read_chain : Substrate → List TargetCall → ℕ → Bool → Bool → ℕ → Update (Unit {0})
read_chain sub calls now never_shut_down dedicated_farm node_id = do
  node_obj ← ask (sub.get_chain_node node_id)
  modify (λ n. record n { chain = node_obj; never_shut_down = never_shut_down })
  read_contracts sub calls now dedicated_farm node_id

-- The storage pools and the cards of the node.
unfoldable pub read_pools : Rmb → ℕ → Update (Unit {0})
read_pools rmb twin_id = do
  pools ← ask_node (rmb.get_storage_pools twin_id)
  modify (λ n. record n { pools = pools })
  gpus ← ask_node (rmb.list_gpus twin_id)
  modify (λ n. record n { gpus = gpus })

-- The part that asks the node itself; `claimed` leaves the resources as they are.
unfoldable pub read_node : Rmb → Bool → ℕ → Update (Unit {0})
read_node rmb true twin_id = read_pools rmb twin_id
read_node rmb false twin_id = do
  stats ← ask_node (rmb.statistics twin_id)
  modify (λ n. update_resources n stats)
  read_pools rmb twin_id

-- With `ContinueOnPoweringOnErr`, `g` is the end for an asleep node; otherwise `k` goes on.
abbrev pub unless_asleep : Bool → (Node → Node) → (Node → Update (Unit {0})) → Update (Unit {0})
unless_asleep go_on g k n = if is_asleep n && go_on then (ok tt, g n) else k n n

-- `(n *node) update`
unfoldable pub update :
    Substrate → Rmb → List TargetCall → ℕ → Bool → Bool → Bool → Update (Unit {0})
update sub rmb calls now never_shut_down dedicated_farm continue_on_err old = run old
  where
    run : Update (Unit {0})
    run = do
      raise_if (old.id == 0) invalid_node_id
      raise_if (old.twin_id == 0) invalid_twin_id
      read_chain sub calls now never_shut_down dedicated_farm old.id
      unless_asleep continue_on_err (λ n. n)
          (λ n. read_node rmb (has_claimed_resources now n) old.twin_id)

-- The zero value `node{}`.
unfoldable pub zero_node : Node
zero_node = record {
  chain = record {
    id = 0;
    twin_id = 0;
    chain_hru = 0;
    chain_sru = 0;
    chain_cru = 0;
    chain_mru = 0;
    is_certified = false;
    has_public_config = false;
  };
  resources = record { total = empty; used = empty; system = empty };
  public_ips_used = 0;
  pools = [];
  gpus = [];
  has_active_rent_contract = false;
  has_active_contracts = false;
  dedicated = false;
  never_shut_down = false;
  power_state = on;
  timeout_claimed_resources = 0;
  last_time_power_state_changed = 0;
  last_time_awake = 0;
  times_random_wake_ups = 0;
  last_time_periodic_wake_up = 0;
}

unfoldable pub total_from_chain : Node → Node
total_from_chain n = record n {
  resources = record {
    total = record { hru = n.chain_hru; sru = n.chain_sru; cru = n.chain_cru; mru = n.chain_mru };
    used = n.used;
    system = n.system;
  };
}

-- `getNode`, called with `hasClaimedResources` false and the old power state `on`: it makes the
-- calls of `update` on a new node, and an asleep node takes its total from the chain.
unfoldable pub fetch_node :
    Substrate → Rmb → List TargetCall → ℕ → ℕ → Bool → Bool → Bool → Result Error Node
fetch_node sub rmb calls now node_id continue_on_err never_shut_down dedicated_farm =
    (elim (run zero_node).0 [ ok _ ↦ ok (run zero_node).1 | err e ↦ err e ])
  where
    run : Update (Unit {0})
    run = do
      read_chain sub calls now never_shut_down dedicated_farm node_id
      unless_asleep continue_on_err total_from_chain (λ n. read_node rmb false n.twin_id)

-- `addOrUpdateNode`: the old node is stored even if its update failed.
unfoldable pub add_or_update_node : Substrate → Rmb → ℕ → ℕ → State → Option Error × State
add_or_update_node sub rmb now node_id f = elim (get_node f.nodes node_id) [
  | some old ↦ updated old
  | none ↦ (elim fetched [
    | ok node ↦ (none, record f { nodes = add_node f.nodes node })
    | err e ↦ (some e, f)
  ])
]
  where
    open f use {config, farm}

    pinned : Bool
    pinned = contains config.never_shut_down_nodes node_id

    fetched : Result Error Node
    fetched =
        fetch_node sub rmb f.calls now node_id config.continue_on_powering_on_err pinned
          farm.dedicated_farm

    updated : Node → Option Error × State
    updated old =
        let (r, node) =
          update sub rmb f.calls now pinned farm.dedicated_farm config.continue_on_powering_on_err
            old in
        let (failed, g) = store_node f node in
        (elim failed [
          | some e ↦ (some e, g)
          | none ↦ (elim r [ ok _ ↦ (none, g) | err e ↦ (some e, g) ])
        ])
