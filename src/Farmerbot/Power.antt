-- ===== src/Farmerbot/Power.antt =====
-- farmerbot/internal/power.go: `powerOn` and `powerOff`. The state comes back beside the error, since
-- a call that fails late has already set a power target on the chain.
pub mod Switch
pub mod Guards
use tfgrid_sdk_go.Prelude.{
  ℕ, Bool, true, false, not, ◌||◌, List, [], ◌∷◌, Option, none, some, Result, ok, err, ltb, ◌==◌,
  length, if◌then◌else◌,
}
use tfgrid_sdk_go.Farmerbot.Env.{ChainError, PowerTarget, TargetCall, Substrate}
use tfgrid_sdk_go.Farmerbot.Node.{
  PowerState, on, waking_up, off, shutting_down, state_eq, Node, periodic_wake_up_duration, since,
  is_unused, has_claimed_resources,
}
use tfgrid_sdk_go.Farmerbot.State.{
  State, Error, node_not_found, chain_error, set_target_failed, never_shut_down_node,
  public_config_node, claimed_node, rented_node, contracted_node, used_node, wakeup_duration,
  last_node_on, get_node, update_node, filter_nodes_power,
}

abbrev pub call_up : ℕ → TargetCall
call_up node_id = record { node_id = node_id; up = true }

abbrev pub call_down : ℕ → TargetCall
call_down node_id = record { node_id = node_id; up = false }

-- `SetNodePowerTarget`: the chain's answer, and the call in the record.
abbrev pub set_target : State → TargetCall → State
set_target f c = record f { calls = c ∷ f.calls }

-- `f.updateNode(node)` on the whole state.
unfoldable pub store_node : State → Node → Option Error × State
store_node f node = elim (update_node f.nodes node) [
  | ok ns ↦ (none, record f { nodes = ns })
  | err e ↦ (some e, f)
]

abbrev pub woken : ℕ → Node → Node
woken now node = record node {
  power_state = waking_up;
  last_time_awake = now;
  last_time_power_state_changed = now;
}

abbrev pub shut : ℕ → Node → Node
shut now node = record node { power_state = shutting_down; last_time_power_state_changed = now }

power_on_node : Substrate → ℕ → ℕ → State → Node → Option Error × State
unfolding store_node
power_on_node sub now node_id f node =
    if state_eq node.power_state on || state_eq node.power_state waking_up
    then (none, f)
    else (elim (sub.set_node_power_target f.calls node_id true) [
      | some e ↦ (some (set_target_failed e), set_target f (call_up node_id))
      | none ↦ store_node (set_target f (call_up node_id)) (woken now node)
    ])

unfoldable pub power_on : Substrate → ℕ → ℕ → State → Option Error × State
unfolding power_on_node
power_on sub now node_id f = elim (get_node f.nodes node_id) [
  | none ↦ (some (node_not_found node_id), f)
  | some node ↦ power_on_node sub now node_id f node
]

-- The guards of `powerOff`, in the order of its early returns.
unfoldable pub power_off_refusal : ℕ → State → Node → Option Error
unfolding is_unused filter_nodes_power
power_off_refusal now f node =
    if node.never_shut_down
    then some never_shut_down_node
    else if node.has_public_config
    then some public_config_node
    else if has_claimed_resources now node
    then some claimed_node
    else if node.has_active_rent_contract
    then some rented_node
    else if node.has_active_contracts
    then some contracted_node
    else if not (is_unused node)
    then some used_node
    else if ltb (since now node.last_time_power_state_changed) periodic_wake_up_duration
    then some wakeup_duration
    else if ltb (length (filter_nodes_power (on ∷ []) f.nodes)) 2
    then some last_node_on
    else none

-- The branch of `powerOff` in which `SetNodePowerTarget` failed with `e`.
power_off_failed : Substrate → ℕ → ℕ → ChainError → State → Node → Option Error × State
unfolding store_node
power_off_failed sub now node_id e f node = elim (sub.get_power_target f.calls node_id) [
  | err e' ↦ (some (chain_error e'), f)
  | ok target ↦
      if target.state_is_down || target.target_is_down
      then (let (failed, g) = store_node f (shut now node) in
          elim failed [ some u ↦ (some u, g) | none ↦ (some (set_target_failed e), g) ])
      else (some (set_target_failed e), f)
]

power_off_node : Substrate → ℕ → ℕ → State → Node → Option Error × State
unfolding store_node power_off_failed
power_off_node sub now node_id f node =
    let g = set_target f (call_down node_id) in
    elim (sub.set_node_power_target f.calls node_id false) [
      | some e ↦ power_off_failed sub now node_id e g node
      | none ↦ store_node g (shut now node)
    ]

unfoldable pub power_off : Substrate → ℕ → ℕ → State → Option Error × State
unfolding power_off_node power_off_refusal
power_off sub now node_id f = elim (get_node f.nodes node_id) [
  | none ↦ (some (node_not_found node_id), f)
  | some node ↦
      if state_eq node.power_state off || state_eq node.power_state shutting_down
      then (none, f)
      else (elim (power_off_refusal now f node) [
        | some e ↦ (some e, f)
        | none ↦ power_off_node sub now node_id f node
      ])
]
