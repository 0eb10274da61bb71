-- ===== src/Tfrobot/Tests.antt =====
-- Three machines on two nodes, of which node 8 refuses all.
use tfgrid_sdk_go.Prelude.{
  ℕ, ◌+◌, ◌≡◌, refl, Bool, true, false, not, List, [], ◌∷◌, Option, none, some, Result, ok, err,
  arith, ◌==◌, if◌then◌else◌, contains, keep, keep-All, All, All-map, map, subst, ok_inj,
}
use tfgrid_sdk_go.Tfrobot.{
  GridClient, Trials, put_networks, put_vms, networks_of, failed_vms, move_failed,
  update_failed_deployments, add_blocked, get_blocked_nodes, mass_deploy, uses_ygg, prepare_group,
  block_nodes, run_trial, is_panic, run_group, Robot,
}
use tfgrid_sdk_go.Tfrobot.Build.{
  Vms, VmDeployment, NetworkDeployment, GroupDeployments, RobotError, build_network_deployment,
  build_deployment, rounds_of, rounds, build_rounds, build_deployments, parse_vms_group,
}
use tfgrid_sdk_go.Tfrobot.Spread.{IsGroupSpread, parse_vms_group-IsSpread}
use tfgrid_sdk_go.Tfrobot.Avoid.{IsFailedOn, prepare_group_avoids}

abbrev three_vms : List Vms
three_vms =
    record {
      group_name = 1;
      vms_count = 3;
      node_group = 0;
      public_ip4 = true;
      public_ip6 = false;
      ygg_ip = false;
      mycelium_ip = false;
      wireguard = false;
    }
    ∷ []

-- Node 8 refuses all machines; a contract has the number of its node plus 100.
abbrev deployed : VmDeployment → VmDeployment
deployed vm = if vm.vm_node == 8 then vm else record vm { contract_id = vm.vm_node + 100 }

abbrev networked : NetworkDeployment → NetworkDeployment
networked network = record network { node_deployments = 1 }

abbrev unnetworked : NetworkDeployment → NetworkDeployment
unnetworked network = record network { node_deployments = 0 }

abbrev any_failed : List VmDeployment → Option ℕ
any_failed [] = none
any_failed (vm ∷ vms) = let rest = any_failed vms in if vm.vm_node == 8 then some 1 else rest

abbrev test_grid : GridClient
test_grid = record {
  filter_nodes = λ count excluded ygg. ok (keep (λ n. not (contains excluded n)) (7 ∷ 8 ∷ 9 ∷ []));
  cancel_networks = map unnetworked;
  deploy_networks = λ ns. (none, map networked ns);
  deploy_vms = λ vms. (any_failed vms, map deployed vms);
}

abbrev new_trials : Trials
new_trials = record { group = 0; nodes_count = 3; excluded_nodes = []; deployments = none }

abbrev or_empty : Result RobotError GroupDeployments → GroupDeployments
or_empty (ok d) = d
or_empty (err e) = []

built : GroupDeployments
built = or_empty (parse_vms_group three_vms 0 (7 ∷ 8 ∷ []))

built_ok : parse_vms_group three_vms 0 (7 ∷ 8 ∷ []) ≡ ok built
unfolding built parse_vms_group build_deployments build_rounds rounds rounds_of build_deployment
    build_network_deployment
built_ok = refl

parse_vms_group-IsSpread_example : IsGroupSpread three_vms 0 (7 ∷ 8 ∷ []) built
parse_vms_group-IsSpread_example = parse_vms_group-IsSpread three_vms 0 (7 ∷ 8 ∷ []) built_ok

after_first : Trials
after_first = record new_trials { deployments = some (mass_deploy test_grid built).1 }

abbrev new_robot : Robot
new_robot = record {
  passed_groups = [];
  failed_groups = [];
  robot_excluded = [];
  canceled_projects = [];
}

-- The second trial succeeds.
all_deployed : (run_group 2 test_grid three_vms new_trials).0 ≡ none
unfolding run_group is_panic run_trial prepare_group uses_ygg parse_vms_group build_deployments
    build_rounds rounds rounds_of build_deployment build_network_deployment mass_deploy networks_of
    failed_vms put_networks put_vms block_nodes get_blocked_nodes add_blocked
    update_failed_deployments move_failed
all_deployed = refl

leaves_out :
    (count : ℕ) (excluded : List ℕ) (ygg : Bool) (nodes : List ℕ)
    → test_grid.filter_nodes count excluded ygg ≡ ok nodes
    → All (λ node. contains excluded node ≡ false) nodes
leaves_out count excluded ygg nodes h =
    subst (All (λ node. contains excluded node ≡ false)) (ok_inj h) (
      All-map (keep (λ n. not (contains excluded n)) (7 ∷ 8 ∷ 9 ∷ [])) (λ n e. ground (arith, e))
        (keep-All (λ n. not (contains excluded n)) (7 ∷ 8 ∷ 9 ∷ [])))

second_prepared : GroupDeployments
second_prepared = or_empty (prepare_group test_grid three_vms (block_nodes after_first))

second_ok : prepare_group test_grid three_vms (block_nodes after_first) ≡ ok second_prepared
unfolding second_prepared after_first built prepare_group uses_ygg parse_vms_group build_deployments
    build_rounds rounds rounds_of build_deployment build_network_deployment mass_deploy networks_of
    failed_vms put_networks put_vms block_nodes get_blocked_nodes add_blocked
    update_failed_deployments move_failed
second_ok = refl

abbrev second_of : GroupDeployments → VmDeployment × NetworkDeployment
second_of (x ∷ y ∷ d) = y
second_of d = (
  build_deployment
      (record {
        group_name = 0;
        vms_count = 0;
        node_group = 0;
        public_ip4 = false;
        public_ip6 = false;
        ygg_ip = false;
        mycelium_ip = false;
        wireguard = false;
      })
      0 (0, 0),
  record {
    network_of = (0, 0);
    network_node = 0;
    network_is_light = false;
    add_wg_access = false;
    mycelium_node = none;
    node_deployments = 0;
  },
)

-- The machine that failed on node 8 is now on node 9.
second_on : IsFailedOn second_prepared 9
unfolding second_prepared after_first built prepare_group uses_ygg parse_vms_group build_deployments
    build_rounds rounds rounds_of build_deployment build_network_deployment mass_deploy networks_of
    failed_vms put_networks put_vms block_nodes get_blocked_nodes add_blocked
    update_failed_deployments move_failed
second_on = (1, second_of second_prepared, refl, refl, refl)

prepare_group_avoids_example :
    (contains [] 9 ≡ false) × (IsFailedOn (mass_deploy test_grid built).1 9 → ⊥)
unfolding after_first
prepare_group_avoids_example =
    prepare_group_avoids test_grid three_vms after_first (mass_deploy test_grid built).1 leaves_out
      refl second_ok 9 second_on
