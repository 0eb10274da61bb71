-- ===== src/Tfrobot.antt =====
-- The mass deployment of tfrobot/pkg/deployer/deployer.go: for each group of nodes it spreads virtual
-- machines over nodes, deploys them, and tries again on other nodes what failed. Names are a group
-- and an index; random keys and the fields that are only handed on are left out. The filter of nodes
-- and the deployers of the grid client are parameters: what they do to a deployment is the new value
-- of it. The error no_node is a panic, an index out of range.

pub mod Build
pub mod Rounds
pub mod Spread
pub mod Retry
pub mod Avoid
mod Tests
use tfgrid_sdk_go.Prelude.{
  ℕ, zero, suc, ◌+◌, ◌%◌, Bool, true, false, not, ◌&&◌, ◌||◌, List, [], ◌∷◌, ◌++◌, Option, none,
  some, Result, ok, err, ◌>>=◌, ◌==◌, if◌then◌else◌, contains, length, get_elem?, keep, map,
}
use tfgrid_sdk_go.Prelude.Maps
use tfgrid_sdk_go.Tfrobot.Build.{
  Vms, VmDeployment, NetworkDeployment, GroupDeployments, RobotError, no_node, filter_failed,
  deploy_failed, uses_light_network, with_mycelium, build_network_deployment, build_deployment,
  rounds_of, rounds, or_no_node, build_rounds, build_deployments, parse_vms_group,
}

-- The grid client: the filter of nodes, and its deployers on what they are given.
pub record GridClient : Type 0 where
  pub filter_nodes : ℕ → List ℕ → Bool → Result ℕ (List ℕ)
  pub cancel_networks : List NetworkDeployment → List NetworkDeployment
  pub deploy_networks : List NetworkDeployment → Option ℕ × List NetworkDeployment
  pub deploy_vms : List VmDeployment → Option ℕ × List VmDeployment

abbrev pub is_failed : VmDeployment × NetworkDeployment → Bool
is_failed (vm, network) = vm.contract_id == 0

abbrev pub is_undeployed : VmDeployment × NetworkDeployment → Bool
is_undeployed (vm, network) = network.node_deployments == 0

-- The values of some networks, or of some machines, put back in their places.
unfoldable pub put_networks :
    (VmDeployment × NetworkDeployment → Bool)
    → GroupDeployments
    → List NetworkDeployment
    → GroupDeployments
put_networks p [] new = []
put_networks p ((vm, network) ∷ d) [] = (vm, network) ∷ d
put_networks p ((vm, network) ∷ d) (n ∷ new) =
    if p (vm, network)
    then (vm, n) ∷ put_networks p d new
    else (vm, network) ∷ put_networks p d (n ∷ new)

unfoldable pub put_vms : GroupDeployments → List VmDeployment → GroupDeployments
put_vms [] new = []
put_vms ((vm, network) ∷ d) [] = (vm, network) ∷ d
put_vms ((vm, network) ∷ d) (v ∷ new) =
    if vm.contract_id == 0
    then (v, network) ∷ put_vms d new
    else (vm, network) ∷ put_vms d (v ∷ new)

unfoldable pub networks_of :
    (VmDeployment × NetworkDeployment → Bool) → GroupDeployments → List NetworkDeployment
networks_of p [] = []
networks_of p ((vm, network) ∷ d) =
    let rest = networks_of p d in if p (vm, network) then network ∷ rest else rest

unfoldable pub failed_vms : GroupDeployments → List VmDeployment
failed_vms [] = []
failed_vms ((vm, network) ∷ d) =
    let rest = failed_vms d in if vm.contract_id == 0 then vm ∷ rest else rest

abbrev pub move_key : Option ℕ → ℕ → Option ℕ
move_key none node = none
move_key (some old) node = some node

abbrev pub move_to : ℕ → VmDeployment × NetworkDeployment → VmDeployment × NetworkDeployment
move_to node (vm, network) = (
  record vm { vm_node = node },
  record network { network_node = node; mycelium_node = move_key network.mycelium_node node },
)

-- The loop of `updateFailedDeployments`, from the index `idx` on.
unfoldable pub move_failed : List ℕ → ℕ → GroupDeployments → Result RobotError GroupDeployments
move_failed nodes idx [] = ok []
move_failed nodes idx (x ∷ d) = do
  moved ←
      if is_failed x || is_undeployed x
      then (do node ← or_no_node (get_elem? nodes (idx % length nodes)); ok (move_to node x))
      else ok x
  rest ← move_failed nodes (idx + 1) d
  ok (moved ∷ rest)

unfoldable pub update_failed_deployments :
    GridClient → List ℕ → GroupDeployments → Result RobotError GroupDeployments
update_failed_deployments grid nodes d =
    move_failed nodes 0 (put_networks is_failed d (grid.cancel_networks (networks_of is_failed d)))

-- `getBlockedNodes`.
unfoldable pub add_blocked : List ℕ → GroupDeployments → List ℕ
add_blocked blocked [] = blocked
add_blocked blocked ((vm, network) ∷ d) =
    add_blocked
      (if vm.contract_id == 0 && not (contains blocked vm.vm_node)
        then blocked ++ vm.vm_node ∷ []
        else blocked)
      d

unfoldable pub get_blocked_nodes : GroupDeployments → List ℕ
get_blocked_nodes d = add_blocked [] d

abbrev pub both_errors : Option ℕ → Option ℕ → Option RobotError
both_errors none none = none
both_errors (some e) f = some (deploy_failed (some e) f)
both_errors none (some f) = some (deploy_failed none (some f))

-- `massDeploy` with `getNotDeployedDeployments`: what is selected is selected before both calls.
unfoldable pub mass_deploy : GridClient → GroupDeployments → Option RobotError × GroupDeployments
mass_deploy grid d =
    let nets = grid.deploy_networks (networks_of is_undeployed d) in
    let vms = grid.deploy_vms (failed_vms d) in
    (both_errors nets.0 vms.0, put_vms (put_networks is_undeployed d nets.1) vms.1)

-- `NodesGroup`, and what the trials change.
pub record Trials : Type 0 where
  pub group : ℕ
  pub nodes_count : ℕ
  pub excluded_nodes : List ℕ
  pub deployments : Option GroupDeployments

unfoldable pub uses_ygg : ℕ → List Vms → Bool
uses_ygg group [] = false
uses_ygg group (vm ∷ vms) = (vm.ygg_ip && vm.node_group == group) || uses_ygg group vms

abbrev pub filtered : Result ℕ (List ℕ) → Result RobotError (List ℕ)
filtered (ok nodes) = ok nodes
filtered (err e) = err (filter_failed e)

-- `deployNodeGroup` up to the mass deployment.
unfoldable pub prepare_group : GridClient → List Vms → Trials → Result RobotError GroupDeployments
prepare_group grid vms t = do
  nodes ← filtered (grid.filter_nodes t.nodes_count t.excluded_nodes (uses_ygg t.group vms))
  elim t.deployments [
    | none ↦ parse_vms_group vms t.group nodes
    | some d ↦ update_failed_deployments grid nodes d
  ]

abbrev pub or_nothing_deployed : Option GroupDeployments → GroupDeployments
or_nothing_deployed none = []
or_nothing_deployed (some d) = d

-- What a failed trial does to the next one.
unfoldable pub block_nodes : Trials → Trials
block_nodes t =
    let blocked = get_blocked_nodes (or_nothing_deployed t.deployments) in
    record t { nodes_count = length blocked; excluded_nodes = t.excluded_nodes ++ blocked }

abbrev pub after_mass_deploy :
    Trials → Option RobotError × GroupDeployments → Option RobotError × Trials
after_mass_deploy t (none, d) = (none, record t { deployments = some d })
after_mass_deploy t (some e, d) = (some e, block_nodes (record t { deployments = some d }))

abbrev pub after_prepare :
    GridClient → Trials → Result RobotError GroupDeployments → Option RobotError × Trials
after_prepare grid t (err e) = (some e, block_nodes t)
after_prepare grid t (ok d) = after_mass_deploy t (mass_deploy grid d)

unfoldable pub run_trial : GridClient → List Vms → Trials → Option RobotError × Trials
run_trial grid vms t = after_prepare grid t (prepare_group grid vms t)

unfoldable pub is_panic : RobotError → Bool
is_panic no_node = true
is_panic (filter_failed e) = false
is_panic (deploy_failed e f) = false

-- `retry.Do` with `MaxRetries`: one trial and at most `retries` more; a panic is the end.
unfoldable pub run_group : ℕ → GridClient → List Vms → Trials → Option RobotError × Trials
run_group zero grid vms t = run_trial grid vms t
run_group (suc retries) grid vms t =
    let (r, t') = run_trial grid vms t in
    let more = run_group retries grid vms t' in
    elim r [ none ↦ (none, t') | some e ↦ if is_panic e then (some e, t') else more ]

-- What `RunDeployer` keeps over the groups: `passedGroups`, `failedGroupsErr`, the nodes that are
-- excluded, and the groups whose contracts it has had canceled by the name of their project.
pub record Robot : Type 0 where
  pub passed_groups : List (ℕ × List VmDeployment)
  pub failed_groups : List (ℕ × RobotError)
  pub robot_excluded : List ℕ
  pub canceled_projects : List ℕ

abbrev pub vms_of : GroupDeployments → List VmDeployment
vms_of d = map (λ x. x.0) d

-- After the trials of a group: what was deployed is kept, or all of it is canceled.
unfoldable pub finish_group : Option RobotError × Trials → Robot → Result RobotError Robot
finish_group (none, t) s = ok record s {
  passed_groups = Maps.insert t.group (vms_of (or_nothing_deployed t.deployments)) s.passed_groups;
  robot_excluded = t.excluded_nodes;
}
finish_group (some e, t) s =
    if is_panic e
    then err e
    else ok record s {
      failed_groups = s.failed_groups ++ (t.group, e) ∷ [];
      robot_excluded = t.excluded_nodes;
      canceled_projects = t.group ∷ s.canceled_projects;
    }

-- The body of the loop over the groups.
unfoldable pub run_node_group : ℕ → GridClient → List Vms → Trials → Robot → Result RobotError Robot
run_node_group retries grid vms t s = finish_group (run_group retries grid vms t) s
