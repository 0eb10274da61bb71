-- ===== src/Tfrobot/Spread.antt =====
-- How tfrobot/pkg/deployer/deployer.go spreads the machines of a group over the nodes.
use mathlib.Core.Option.{some_inj}
use native.Mathlib.Nat.{mod-add-mod, mod-eq_of_lt}
use tfgrid_sdk_go.Prelude.{
  ℕ, zero, suc, not, ◌||◌, none, if◌then◌else◌, ◌+◌, ◌%◌, ◌<◌, ◌≡◌, refl, sym, ap, ◌∙◌, inl, inr,
  subst, List, [], ◌∷◌, some, ok, ok_inj, IsIn-All, Result-cases, Option-cases, arith, length,
  get_elem?,
}
use tfgrid_sdk_go.Tfrobot.Build.{
  Vms, VmDeployment, NetworkDeployment, GroupDeployments, build_network_deployment,
  build_deployment, build_rounds, build_deployments, parse_vms_group,
}
use tfgrid_sdk_go.Tfrobot.Rounds.{
  machines_of, IsAsked, rounds_in, length-rounds, rounds-All, IsIn-rounds, IsIn-get_elem?,
  get_elem?-of_lt, get_elem?-IsIn,
}

-- The machine and its network: named for the group and the index, both on that node, of the same
-- kind, and not deployed yet. They are light where the group asks for nothing that needs a full one.
abbrev pub IsBuilt : Vms × ℕ → ℕ → VmDeployment × NetworkDeployment → Type 0
IsBuilt (vm, i) node (machine, network) =
    (machine.vm_name ≡ (vm.group_name, i))
    × (machine.vm_node ≡ node)
    × (machine.contract_id ≡ 0)
    × (network.network_of ≡ (vm.group_name, i))
    × (network.network_node ≡ node)
    × (network.node_deployments ≡ 0)
    × (machine.vm_is_light ≡ not (vm.wireguard || vm.public_ip4 || vm.public_ip6 || vm.ygg_ip))
    × (network.network_is_light ≡ machine.vm_is_light)
    × (network.add_wg_access ≡ vm.wireguard)
    × (network.mycelium_node
        ≡ (if vm.mycelium_ip || not (vm.public_ip4 || vm.ygg_ip) then some node else none))

build-IsBuilt :
    (vm : Vms) (i node : ℕ)
    → IsBuilt
        (vm, i)
        node
        (
          build_deployment vm node (vm.group_name, i),
          build_network_deployment vm node (vm.group_name, i),
        )
unfolding build_deployment build_network_deployment
build-IsBuilt vm i node =
    (refl, refl, refl, refl, refl, refl, ground arith, refl, ground arith, ground arith)

-- Round `k` is on the node at `start + k`, counted round the nodes.
abbrev pub IsSpread : List ℕ → ℕ → List (Vms × ℕ) → GroupDeployments → Type 0
IsSpread nodes start slots d =
    (length d ≡ length slots)
    × ((k : ℕ) (slot : Vms × ℕ)
        → get_elem? slots k ≡ some slot
        → (node : ℕ) × (x : VmDeployment × NetworkDeployment) × (get_elem? nodes
              ((start + k) % length nodes)
            ≡ some node)
          × (get_elem? d k ≡ some x)
          × IsBuilt slot node x)

-- The deployment at the place `k` is the machine `slot`, on the node at that place, counted round.
abbrev pub IsPlaced : List ℕ → GroupDeployments → ℕ → Vms × ℕ → Type 0
IsPlaced nodes d k slot =
    (node : ℕ) × (x : VmDeployment × NetworkDeployment) × (get_elem? nodes (k % length nodes)
      ≡ some node)
    × (get_elem? d k ≡ some x)
    × IsBuilt slot node x

get_elem?_lt : {A : Type 0} (xs : List A) (i : ℕ) {a : A} → get_elem? xs i ≡ some a → i < length xs
get_elem?_lt [] i h = cc
get_elem?_lt (x ∷ xs) zero h = omega arith
get_elem?_lt (x ∷ xs) (suc i) h = omega (arith, get_elem?_lt xs i h)

around : (idx k n : ℕ) → ((idx + 1) % n + k) % n ≡ (idx + suc k) % n
around idx k n = mod-add-mod (idx + 1) n k ∙ ap (λ (x : ℕ). x % n) (omega arith)

-- One more round in front.
round_at :
    (nodes : List ℕ) (idx : ℕ) (slot : Vms × ℕ) (more : List (Vms × ℕ)) (node : ℕ)
    (x : VmDeployment × NetworkDeployment) (rest : GroupDeployments)
    → get_elem? nodes idx ≡ some node
    → IsBuilt slot node x
    → IsSpread nodes ((idx + 1) % length nodes) more rest
    → (k : ℕ) (s : Vms × ℕ) → get_elem? (slot ∷ more) k ≡ some s
    → (n : ℕ) × (y : VmDeployment × NetworkDeployment) × (get_elem? nodes ((idx + k) % length nodes)
        ≡ some n)
      × (get_elem? (x ∷ rest) k ≡ some y)
      × IsBuilt s n y
round_at nodes idx slot more node x rest e built spread zero s h =
    let first : (idx + 0) % length nodes ≡ idx =
      ap (λ (y : ℕ). y % length nodes) (omega arith) ∙ mod-eq_of_lt (get_elem?_lt nodes idx e) in
    (
      node,
      x,
      ap (get_elem? nodes) first ∙ e,
      refl,
      subst (λ y. IsBuilt y node x) (some_inj.0 h) built,
    )
round_at nodes idx slot more node x rest e built (size, later) (suc k) s h =
    let (n, y, at_n, at_y, b) = later k s h in
    (n, y, ap (get_elem? nodes) (sym (around idx k (length nodes))) ∙ at_n, at_y, b)

build_rounds-IsSpread :
    (nodes : List ℕ) (idx : ℕ) (slots : List (Vms × ℕ)) {d : GroupDeployments}
    → build_rounds nodes idx slots ≡ ok d
    → IsSpread nodes idx slots d
unfolding build_rounds
build_rounds-IsSpread nodes idx [] {d} h =
    (ground (arith, ap length (ok_inj h)), λ k slot e. absurd (ground (arith, e)))
build_rounds-IsSpread nodes idx ((vm, i) ∷ more) {d} h = elim (Option-cases (get_elem? nodes idx)) [
  | inl n ↦ absurd (ground (arith, h, n))
  | inr (node, e) ↦ elim (Result-cases (build_rounds nodes ((idx + 1) % length nodes) more)) [
    | inr (x, r) ↦ absurd (ground (arith, h, e, r))
    | inl (rest, r) ↦
        let (size, later) =
          build_rounds-IsSpread nodes ((idx + 1) % length nodes) more {d = rest} r in
        let made : (
          build_deployment vm node (vm.group_name, i),
          build_network_deployment vm node (vm.group_name, i),
        )
              ∷ rest
            ≡ d =
          ground (arith, h, e, r) in
        subst (IsSpread nodes idx ((vm, i) ∷ more)) made (
          ap suc size,
          round_at nodes idx (vm, i) more node _ rest e (build-IsBuilt vm i node) (size, later),
        )
  ]
]

from_start :
    (nodes : List ℕ) (d : GroupDeployments) (k : ℕ) (slot : Vms × ℕ)
    → ((node : ℕ) × (x : VmDeployment × NetworkDeployment) × (get_elem? nodes
            ((0 + k) % length nodes)
          ≡ some node)
        × (get_elem? d k ≡ some x)
        × IsBuilt slot node x)
    → IsPlaced nodes d k slot
from_start nodes d k slot (node, x, at, stands, built) = (
  node,
  x,
  subst (λ (n : ℕ). get_elem? nodes (n % length nodes) ≡ some node) (omega arith) at,
  stands,
  built,
)

abbrev pub IsGroupSpread : List Vms → ℕ → List ℕ → GroupDeployments → Type 0
IsGroupSpread vms group nodes d =
    (length d ≡ machines_of group vms)
    × ((k : ℕ) → k < length d → (slot : Vms × ℕ) × IsAsked vms group slot × IsPlaced nodes d k slot)
    × ((slot : Vms × ℕ) → IsAsked vms group slot → (k : ℕ) × IsPlaced nodes d k slot)

-- If `parseVMsGroup` builds the deployments of a group of nodes: there are as many as its vms ask for;
-- each one has the machine and the network of an index of one of them, both on the node whose place
-- is that of the deployment, counted round the nodes; and each index of each of them has one.
pub parse_vms_group-IsSpread :
    (vms : List Vms) (group : ℕ) (nodes : List ℕ) {d : GroupDeployments}
    → parse_vms_group vms group nodes ≡ ok d
    → IsGroupSpread vms group nodes d
unfolding parse_vms_group build_deployments
parse_vms_group-IsSpread vms group nodes {d} h =
    let slots = rounds_in group vms in
    let (size, spread) = build_rounds-IsSpread nodes 0 slots {d = d} h in
    let placed : (k : ℕ) (slot : Vms × ℕ)
        → get_elem? slots k ≡ some slot
        → IsPlaced nodes d k slot =
      λ k slot at. from_start nodes d k slot (spread k slot at) in
    (
      size ∙ length-rounds group vms,
      λ k l.
          let (slot, at) = get_elem?-of_lt slots k (omega (arith, l, size)) in
          (
            slot,
            IsIn-All (IsAsked vms group) slots (rounds-All group vms) (get_elem?-IsIn slots k at),
            placed k slot at,
          ),
      λ slot asked.
          let (k, at) = IsIn-get_elem? slots (IsIn-rounds group vms slot.0 slot.1 asked) in
          (k, placed k slot at),
    )
