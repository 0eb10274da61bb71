-- ===== src/Farmerbot/Tests/Rounds.antt =====
-- The theorems on rounds and on the configuration at the small farm of Farmerbot/Samples.antt.
use tfgrid_sdk_go.Prelude.{
  ℕ, ◌+◌, ◌≤◌, ◌≡◌, refl, false, ◌&&◌, List, [], ◌∷◌, ◌++◌, Result, ok, err, arith, contains, All,
}
use tfgrid_sdk_go.Prelude.Dedup.{Distinct}
use tfgrid_sdk_go.Farmerbot.Node.{update_resources}
use tfgrid_sdk_go.Farmerbot.State.{State, Error, get_node, update_node}
use tfgrid_sdk_go.Farmerbot.Power.{store_node, power_on}
use tfgrid_sdk_go.Farmerbot.Refresh.{
  add_or_update_node, read_chain, read_contracts, read_node, read_pools, update, follow_target,
}
use tfgrid_sdk_go.Farmerbot.Round.{node_round, wake_up_round, should_wake_up, keep_up, nodes_loop}
use tfgrid_sdk_go.Farmerbot.Round.Accepted.{powered_on, kept_up, nodes_loop-powered_on}
use tfgrid_sdk_go.Farmerbot.Setup.{add_priority_to_nodes, is_managed}
use tfgrid_sdk_go.Farmerbot.Setup.Priority.{add_priority_to_nodes_order}
use tfgrid_sdk_go.Farmerbot.Samples.{
  calm_chain, calm_rmb, sample_config, asleep_state, sample_now, sample_world,
}

-- A round over the node that is off.
abbrev sample_round : Result Error (State × ℕ)
sample_round =
    nodes_loop sample_world calm_chain calm_rmb sample_now sample_now (3 ∷ []) (asleep_state, 0)

abbrev end_of : Result Error (State × ℕ) → State × ℕ
end_of (ok s) = s
end_of (err e) = (asleep_state, 0)

nodes_loop-powered_on_example :
    ((end_of sample_round).0.config ≡ sample_config)
    × ((end_of sample_round).1 ≤ 1)
    × (powered_on calm_chain (end_of sample_round).0.calls
        ≤ powered_on calm_chain asleep_state.calls
          + kept_up sample_world calm_chain calm_rmb sample_now sample_now
              (3 ∷ [])
              (asleep_state, 0)
          + (end_of sample_round).1)
unfolding nodes_loop node_round is_managed wake_up_round should_wake_up get_node add_or_update_node
    store_node update_node update read_chain read_contracts follow_target read_node read_pools
    update_resources keep_up power_on
nodes_loop-powered_on_example =
    nodes_loop-powered_on sample_world calm_chain calm_rmb sample_now sample_now (3 ∷ [])
      asleep_state (end_of sample_round).0 (end_of sample_round).1 (omega arith) refl

priority_example :
    let out = add_priority_to_nodes (3 ∷ 9 ∷ []) (1 ∷ 2 ∷ 3 ∷ []) in
    Distinct out
    × ((k : ℕ) → contains out k ≡ contains (1 ∷ 2 ∷ 3 ∷ []) k)
    × ((first : List ℕ) × (rest : List ℕ) × (out ≡ first ++ rest)
        × ((k : ℕ) → contains first k ≡ (contains (3 ∷ 9 ∷ []) k && contains (1 ∷ 2 ∷ 3 ∷ []) k))
        × All (λ k. contains first k ≡ false) rest)
priority_example = add_priority_to_nodes_order (3 ∷ 9 ∷ []) (1 ∷ 2 ∷ 3 ∷ [])
