-- ===== src/Farmerbot/Tests/Requests.antt =====
-- The theorems on requests and on the data of a node at the small farm of Farmerbot/Samples.antt.
use tfgrid_sdk_go.Prelude.{ℕ, ◌*◌, ◌≡◌, refl, ◌⊎◌, false, [], none, ok, err, arith, here, there}
use tfgrid_sdk_go.Prelude.Dedup.{Distinct}
use tfgrid_sdk_go.Farmerbot.Node.{
  Node, on, hour, claim_resources, can_claim_resources, free_capacity,
}
use tfgrid_sdk_go.Farmerbot.State.{State, divide_by_zero, update_node}
use tfgrid_sdk_go.Farmerbot.State.Lookup.{ids}
use tfgrid_sdk_go.Farmerbot.Power.{store_node}
use tfgrid_sdk_go.Farmerbot.FindNode.{
  find_node, claimed, enough_gpus, enough_public_ips, is_possible, options_capacity, take_node,
  with_num_gpu,
}
use tfgrid_sdk_go.Farmerbot.FindNode.Complete.{find_node_complete}
use tfgrid_sdk_go.Farmerbot.FindNode.Found.{Chosen, find_node_ok}
use tfgrid_sdk_go.Farmerbot.Node.Claims.{Fits, can_claim_resources-Fits}
use tfgrid_sdk_go.Farmerbot.Refresh.{update}
use tfgrid_sdk_go.Farmerbot.Refresh.Updated.{update_protects_claims}
use tfgrid_sdk_go.Farmerbot.Serve.{serve, poweroff, NodeReport, create_node_report}
use tfgrid_sdk_go.Farmerbot.Serve.Ids.{HasDistinctIds, serve-HasDistinctIds}
use tfgrid_sdk_go.Farmerbot.Serve.Report.{Shows, AtMost100, create_node_report_percent}
use tfgrid_sdk_go.Farmerbot.Samples.{
  exact_floats, exact_floats-FloatLaws, sort_by_state, sort_by_state-Sorts, calm_chain,
  calm_chain-AnswersById, calm_rmb, capacity, sample_node, sample_state, sample_options, sample_now,
}

sample-Distinct : Distinct (ids sample_state.nodes)
sample-Distinct = (refl, (refl, (refl, tt)))

-- The same nodes with no room left among the public addresses.
abbrev crowded_state : State
crowded_state = record sample_state { farm = record (sample_state.farm) { public_ips = 0 } }

find_node_ok_example :
    Chosen exact_floats sort_by_state calm_chain sample_now sample_options sample_state 2
      (find_node exact_floats sort_by_state calm_chain sample_now sample_options sample_state).1
unfolding find_node enough_public_ips with_num_gpu is_possible enough_gpus can_claim_resources
    options_capacity free_capacity take_node claimed store_node update_node
find_node_ok_example =
    find_node_ok exact_floats sort_by_state calm_chain sample_now sample_options sample_state
      sort_by_state-Sorts sample-Distinct refl

find_node_complete_example :
    (k : ℕ) × ((find_node exact_floats sort_by_state calm_chain sample_now sample_options
        sample_state).0
      ≡ ok k)
unfolding enough_public_ips with_num_gpu is_possible enough_gpus can_claim_resources
    options_capacity free_capacity
find_node_complete_example =
    find_node_complete exact_floats sort_by_state calm_chain sample_now sample_options sample_state
      sort_by_state-Sorts sample-Distinct (λ cs k. refl) refl (there (here refl)) refl

claims_fit_example :
    let m = claim_resources (sample_node 1 on) (capacity 10 10 4 2) in
    Fits 0 16 4 m.used.cru
    × Fits 2 16 2 m.used.mru
    × Fits 100 1000 10 m.used.sru
    × Fits 0 4000 10 m.used.hru
unfolding can_claim_resources free_capacity
claims_fit_example =
    can_claim_resources-Fits exact_floats (sample_node 1 on) (capacity 10 10 4 2) 2
      exact_floats-FloatLaws (omega arith) (omega arith) (omega arith) (omega arith) (omega arith)
      refl

-- A node that is claimed for another hour.
abbrev claimed_node : Node
claimed_node = record (sample_node 2 on) { timeout_claimed_resources = 3 * hour }

update_protects_claims_example :
    let n = (update calm_chain calm_rmb [] sample_now false false false claimed_node).1 in
    (n.resources ≡ claimed_node.resources)
    × (n.public_ips_used ≡ 0)
    × (n.timeout_claimed_resources ≡ 3 * hour)
update_protects_claims_example =
    update_protects_claims calm_chain calm_rmb [] sample_now false false false claimed_node
      (omega arith)

serve_ids_example :
    HasDistinctIds
      (serve exact_floats sort_by_state calm_chain calm_rmb
        (100_000_000, none)
        7
        sample_now
        7
        (poweroff 2)
        sample_state).1
serve_ids_example =
    serve-HasDistinctIds exact_floats sort_by_state calm_chain calm_rmb (100_000_000, none) 7
      sample_now 7 (poweroff 2) sample_state calm_chain-AnswersById sample-Distinct

create_node_report_example :
    ((create_node_report sample_now (sample_node 1 on) ≡ err divide_by_zero)
      × (((sample_node 1 on).total.cru ≡ 0)
          ⊎ ((sample_node 1 on).total.sru ≡ 0)
          ⊎ ((sample_node 1 on).total.mru ≡ 0)))
    ⊎ ((r : NodeReport) × (create_node_report sample_now (sample_node 1 on) ≡ ok r)
        × Shows r (capacity 0 100 0 2) (capacity 4000 1000 8 16)
        × AtMost100 r)
create_node_report_example =
    create_node_report_percent sample_now (sample_node 1 on) (omega arith, omega arith)
      (omega arith, omega arith) (omega arith, omega arith) (omega arith, omega arith)
