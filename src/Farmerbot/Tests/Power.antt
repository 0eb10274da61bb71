-- ===== src/Farmerbot/Tests/Power.antt =====
-- The theorems on power at the small farm of Farmerbot/Samples.antt.
use tfgrid_sdk_go.Prelude.{
  ◌≤◌, ◌≡◌, refl, ◌⊎◌, [], ◌∷◌, some, ok, err, arith, if◌then◌else◌, All, IsIn,
}
use tfgrid_sdk_go.Farmerbot.Node.{Node, off}
use tfgrid_sdk_go.Farmerbot.State.{get_node, demand_unmet}
use tfgrid_sdk_go.Farmerbot.State.Lookup.{count_on}
use tfgrid_sdk_go.Farmerbot.Power.{call_down, power_off}
use tfgrid_sdk_go.Farmerbot.Power.Guards.{MayShutDown, power_off_calls}
use tfgrid_sdk_go.Farmerbot.Manage.{
  select_nodes_to_power_on, select_from, select_round, is_met, demand_after, contributes,
  resource_usage_too_low, manage_nodes_power,
}
use tfgrid_sdk_go.Farmerbot.Manage.Select.{can_meet, select_nodes_to_power_on-can_meet}
use tfgrid_sdk_go.Farmerbot.Manage.Selected.{Met, select_nodes_to_power_on_sound}
use tfgrid_sdk_go.Farmerbot.Manage.Shrink.{
  TakesDown, resource_usage_too_low_calls, manage_nodes_power_keeps_on,
}
use tfgrid_sdk_go.Farmerbot.Samples.{
  exact_floats, calm_chain, capacity, sample_node, sample_state, sample_now,
}

two_on : 1 ≤ count_on sample_state.nodes
unfolding count_on
two_on = omega arith

power_off_calls_example :
    ((power_off calm_chain sample_now 2 sample_state).1.calls ≡ [])
    ⊎ ((node : Node) × (get_node sample_state.nodes 2 ≡ some node)
        × MayShutDown sample_now sample_state node
        × ((power_off calm_chain sample_now 2 sample_state).1.calls ≡ call_down 2 ∷ []))
power_off_calls_example = power_off_calls calm_chain sample_now 2 sample_state

select_can_meet_example : select_nodes_to_power_on sample_state.nodes (capacity 0 100 4 0) ≡ (
    if can_meet (capacity 0 100 4 0) sample_state.nodes
    then ok (select_from sample_state.nodes (capacity 0 100 4 0)).0
    else err demand_unmet)
select_can_meet_example = select_nodes_to_power_on-can_meet sample_state.nodes (capacity 0 100 4 0)

selects_sleeper :
    select_nodes_to_power_on sample_state.nodes (capacity 0 100 4 0) ≡ ok (sample_node 3 off ∷ [])
unfolding select_nodes_to_power_on select_from select_round is_met demand_after contributes
selects_sleeper = refl

select_sound_example :
    All (λ m. IsIn m sample_state.nodes × (m.power_state ≡ off)) (sample_node 3 off ∷ [])
    × Met (λ n. n.chain_cru) 4 (sample_node 3 off ∷ [])
    × Met (λ n. n.chain_sru) 100 (sample_node 3 off ∷ [])
    × Met (λ n. n.chain_mru) 0 (sample_node 3 off ∷ [])
    × Met (λ n. n.chain_hru) 0 (sample_node 3 off ∷ [])
select_sound_example =
    select_nodes_to_power_on_sound sample_state.nodes (capacity 0 100 4 0) selects_sleeper

too_low_calls_example :
    TakesDown sample_now sample_state.nodes []
      (resource_usage_too_low exact_floats calm_chain sample_now
        (capacity 0 200 0 4)
        (capacity 8000 2000 16 32)
        sample_state).calls
too_low_calls_example =
    resource_usage_too_low_calls exact_floats calm_chain sample_now (capacity 0 200 0 4)
      (capacity 8000 2000 16 32) sample_state

manage_keeps_on_example :
    1 ≤ count_on (manage_nodes_power exact_floats calm_chain sample_now sample_state).1.nodes
manage_keeps_on_example =
    manage_nodes_power_keeps_on exact_floats calm_chain sample_now sample_state two_on
