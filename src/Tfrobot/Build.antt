-- ===== src/Tfrobot/Build.antt =====
-- How tfrobot/pkg/deployer/deployer.go spreads the machines of a group over nodes.
use tfgrid_sdk_go.Prelude.{
  ℕ, zero, suc, ◌+◌, ◌%◌, Bool, true, false, not, ◌&&◌, List, [], ◌∷◌, ◌++◌, Option, none, some,
  Result, ok, err, ◌>>=◌, ◌==◌, if◌then◌else◌, length, get_elem?, keep,
}

-- `Vms`: the fields that decide on the kind of network.
pub record Vms : Type 0 where
  pub group_name : ℕ
  pub vms_count : ℕ
  pub node_group : ℕ
  pub public_ip4 : Bool
  pub public_ip6 : Bool
  pub ygg_ip : Bool
  pub mycelium_ip : Bool
  pub wireguard : Bool

pub record VmDeployment : Type 0 where
  pub vm_name : ℕ × ℕ
  pub vm_node : ℕ
  pub vm_is_light : Bool
  pub contract_id : ℕ

-- `node_deployments` is the size of `NodeDeploymentID`, `mycelium_node` the node of the key.
pub record NetworkDeployment : Type 0 where
  pub network_of : ℕ × ℕ
  pub network_node : ℕ
  pub network_is_light : Bool
  pub add_wg_access : Bool
  pub mycelium_node : Option ℕ
  pub node_deployments : ℕ

-- `groupDeploymentsInfo`; both lists have the same length.
abbrev pub GroupDeployments : Type 0
GroupDeployments = List (VmDeployment × NetworkDeployment)

pub data RobotError : Type 0 where
  no_node : RobotError
  filter_failed : ℕ → RobotError
  deploy_failed : Option ℕ → Option ℕ → RobotError

abbrev pub uses_light_network : Vms → Bool
uses_light_network vm = not vm.wireguard && not vm.public_ip4 && not vm.public_ip6 && not vm.ygg_ip

-- `buildNetworkDeployment` sets mycelium on the group where there is no other address.
abbrev pub with_mycelium : Vms → Vms
with_mycelium vm =
    if not vm.public_ip4 && not vm.ygg_ip && not vm.mycelium_ip
    then record vm { mycelium_ip = true }
    else vm

unfoldable pub build_network_deployment : Vms → ℕ → ℕ × ℕ → NetworkDeployment
build_network_deployment vm node name = record {
  network_of = name;
  network_node = node;
  network_is_light = uses_light_network vm;
  add_wg_access = if uses_light_network vm then false else vm.wireguard;
  mycelium_node = if (with_mycelium vm).mycelium_ip then some node else none;
  node_deployments = 0;
}

unfoldable pub build_deployment : Vms → ℕ → ℕ × ℕ → VmDeployment
build_deployment vm node name = record {
  vm_name = name;
  vm_node = node;
  vm_is_light = uses_light_network vm;
  contract_id = 0;
}

-- The rounds of the two loops: each group as often as it counts.
unfoldable pub rounds_of : Vms → ℕ → ℕ → List (Vms × ℕ)
rounds_of vm i zero = []
rounds_of vm i (suc left) = (vm, i) ∷ rounds_of vm (i + 1) left

unfoldable pub rounds : List Vms → List (Vms × ℕ)
rounds [] = []
rounds (vm ∷ vms) = rounds_of vm 0 vm.vms_count ++ rounds vms

abbrev pub or_no_node : Option ℕ → Result RobotError ℕ
or_no_node none = err no_node
or_no_node (some node) = ok node

-- `idx` is `nodesIDsIdx`, which goes round the nodes.
unfoldable pub build_rounds : List ℕ → ℕ → List (Vms × ℕ) → Result RobotError GroupDeployments
build_rounds nodes idx [] = ok []
build_rounds nodes idx ((vm, i) ∷ more) = do
  node ← or_no_node (get_elem? nodes idx)
  rest ← build_rounds nodes ((idx + 1) % length nodes) more
  ok (
      (
        build_deployment vm node (vm.group_name, i),
        build_network_deployment vm node (vm.group_name, i),
      )
      ∷ rest)

unfoldable pub build_deployments : List Vms → List ℕ → Result RobotError GroupDeployments
build_deployments vms nodes = build_rounds nodes 0 (rounds vms)

-- `parseVMsGroup`.
unfoldable pub parse_vms_group : List Vms → ℕ → List ℕ → Result RobotError GroupDeployments
parse_vms_group vms group nodes = build_deployments (keep (λ vm. vm.node_group == group) vms) nodes
