-- ===== src/NodeStatus/Tests.antt =====
-- The SQL and the status of a node that is powered off and was heard of an hour ago.
use tfgrid_sdk_go.Prelude.{◌≡◌, true, false, [], ◌∷◌, some}
use tfgrid_sdk_go.NodeStatus.{
  up, standby, decide_node_status, selects, decide_node_status_condition,
  decide_node_status_ordering,
}
use tfgrid_sdk_go.NodeStatus.Agreement.{
  row_of, power_of, any_status, condition-status, ordering-status,
}

condition_status_example :
    selects
      (row_of (some (false, false)) 996_400)
      (decide_node_status_condition 1_000_000 up (standby ∷ []))
    ≡ any_status
        (decide_node_status 1_000_000 (power_of (some (false, false))) 996_400)
        up
        (standby ∷ [])
condition_status_example =
    condition-status 1_000_000 up (standby ∷ []) (some (false, false)) 996_400

ordering_status_example :
    decide_node_status_ordering 1_000_000 true (row_of (some (false, false)) 996_400) ≡ 2
unfolding decide_node_status
ordering_status_example = ordering-status 1_000_000 true (some (false, false)) 996_400
