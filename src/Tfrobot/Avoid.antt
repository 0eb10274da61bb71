-- ===== src/Tfrobot/Avoid.antt =====
-- Which nodes the trials of tfrobot/pkg/deployer/deployer.go avoid.
use mathlib.Core.Option.{some_inj}
use tfgrid_sdk_go.Prelude.{
  ℕ, zero, suc, ◌≡◌, sym, ap, ◌∙◌, subst, Bool, true, false, not, ◌&&◌, List, [], ◌∷◌, ◌++◌, some,
  ok, arith, get_elem?, ◌==◌, if◌then◌else◌, contains, contains-append, All,
}
use tfgrid_sdk_go.Tfrobot.{
  GridClient, is_failed, put_networks, networks_of, move_to, update_failed_deployments, add_blocked,
  get_blocked_nodes, Trials, prepare_group, or_nothing_deployed, block_nodes, uses_ygg,
}
use tfgrid_sdk_go.Tfrobot.Build.{Vms, VmDeployment, NetworkDeployment, GroupDeployments}
use tfgrid_sdk_go.Tfrobot.Retry.{stays, moves, AllMoved, move_failed-AllMoved, prepare_group_update}

-- The nodes with a machine that failed.
abbrev pub IsFailedOn : GroupDeployments → ℕ → Type 0
IsFailedOn d node =
    (k : ℕ) × (x : VmDeployment × NetworkDeployment) × (get_elem? d k ≡ some x)
    × (x.0.contract_id ≡ 0)
    × (x.0.vm_node ≡ node)

add_blocked-keeps :
    (blocked : List ℕ) (d : GroupDeployments) (node : ℕ)
    → contains blocked node ≡ true
    → contains (add_blocked blocked d) node ≡ true
unfolding add_blocked
add_blocked-keeps blocked [] node h = h
add_blocked-keeps blocked ((vm, network) ∷ d) node h =
    add_blocked-keeps
      (if vm.contract_id == 0 && not (contains blocked vm.vm_node)
        then blocked ++ vm.vm_node ∷ []
        else blocked)
      d node (ground (arith, h, contains-append blocked (vm.vm_node ∷ []) node))

add_blocked-contains :
    (blocked : List ℕ) (d : GroupDeployments) (k : ℕ) {x : VmDeployment × NetworkDeployment}
    → get_elem? d k ≡ some x
    → x.0.contract_id ≡ 0
    → contains (add_blocked blocked d) x.0.vm_node ≡ true
unfolding add_blocked
add_blocked-contains blocked [] k h z = cc
add_blocked-contains blocked ((vm, network) ∷ d) zero {x} h z =
    let own : vm ≡ x.0 = ap (λ (y : VmDeployment × NetworkDeployment). y.0) (some_inj.0 h) in
    let none_left : vm.contract_id ≡ 0 = ap (λ (v : VmDeployment). v.contract_id) own ∙ z in
    let node : vm.vm_node ≡ x.0.vm_node = ap (λ (v : VmDeployment). v.vm_node) own in
    add_blocked-keeps
      (if vm.contract_id == 0 && not (contains blocked vm.vm_node)
        then blocked ++ vm.vm_node ∷ []
        else blocked)
      d x.0.vm_node
      (ground (arith, none_left, node, contains-append blocked (vm.vm_node ∷ []) vm.vm_node))
add_blocked-contains blocked ((vm, network) ∷ d) (suc k) h z =
    add_blocked-contains
      (if vm.contract_id == 0 && not (contains blocked vm.vm_node)
        then blocked ++ vm.vm_node ∷ []
        else blocked)
      d k h z

All-get_elem? :
    (P : ℕ → Type 0) (xs : List ℕ) (i : ℕ) {a : ℕ} → All P xs → get_elem? xs i ≡ some a → P a
All-get_elem? P [] i h e = cc
All-get_elem? P (x ∷ xs) zero h e = subst P (some_inj.0 e) h.0
All-get_elem? P (x ∷ xs) (suc i) h e = All-get_elem? P xs i h.1 e

-- A machine that is still without a contract has gone to one of the nodes.
AllMoved-node :
    (P : ℕ → Type 0) (nodes : List ℕ) (d e : GroupDeployments) (k : ℕ)
    {w : VmDeployment × NetworkDeployment}
    → All P nodes
    → AllMoved nodes d e
    → get_elem? e k ≡ some w
    → w.0.contract_id ≡ 0
    → P w.0.vm_node
AllMoved-node P nodes d [] k all a h z = cc
AllMoved-node P nodes [] (y ∷ e) k all a h z = elim a [ ]
AllMoved-node P nodes (x ∷ d) (y ∷ e) zero {w} all (stays f s, a) h z =
    let own : w ≡ x = sym (some_inj.0 h) ∙ s in
    absurd
      (ground (arith, f, z, ap (λ (v : VmDeployment × NetworkDeployment). v.0.contract_id) own))
AllMoved-node P nodes (x ∷ d) (y ∷ e) zero {w} all (moves i node g s, a) h z =
    let own : w ≡ move_to node x = sym (some_inj.0 h) ∙ s in
    subst P (sym (ap (λ (v : VmDeployment × NetworkDeployment). v.0.vm_node) own))
      (All-get_elem? P nodes i all g)
AllMoved-node P nodes (x ∷ d) (y ∷ e) (suc k) all a h z = AllMoved-node P nodes d e k all a.1 h z

-- Where the filter leaves out the nodes that are excluded: if a trial was not the last one, then after
-- the next filter and update a machine without a contract is on no node where, before, a machine was
-- without one, nor on a node that was excluded already.
pub prepare_group_avoids :
    (grid : GridClient) (vms : List Vms) (t : Trials) (d : GroupDeployments) {e : GroupDeployments}
    → ((count : ℕ) (excluded : List ℕ) (ygg : Bool) (nodes : List ℕ)
        → grid.filter_nodes count excluded ygg ≡ ok nodes
        → All (λ node. contains excluded node ≡ false) nodes)
    → t.deployments ≡ some d
    → prepare_group grid vms (block_nodes t) ≡ ok e
    → (node : ℕ) → IsFailedOn e node
    → (contains t.excluded_nodes node ≡ false) × (IsFailedOn d node → ⊥)
unfolding block_nodes get_blocked_nodes update_failed_deployments
prepare_group_avoids grid vms t d {e} leaves_out s h node (k, y, at, z, on) =
    let (nodes, f, u) = prepare_group_update grid vms (block_nodes t) d s h in
    let blocked = get_blocked_nodes (or_nothing_deployed t.deployments) in
    let out =
      leaves_out (block_nodes t).nodes_count (block_nodes t).excluded_nodes (uses_ygg t.group vms)
        nodes f in
    let d1 = put_networks is_failed d (grid.cancel_networks (networks_of is_failed d)) in
    let new =
      AllMoved-node (λ a. contains (t.excluded_nodes ++ blocked) a ≡ false) nodes d1 e k out
        (move_failed-AllMoved nodes 0 d1 u) at z in
    let both = contains-append t.excluded_nodes blocked node in
    let fresh : contains (t.excluded_nodes ++ blocked) node ≡ false =
      subst (λ a. contains (t.excluded_nodes ++ blocked) a ≡ false) on new in
    (
      ground (arith, both, fresh),
      λ old.
          let (l, x, at_l, zero_l, on_l) = old in
          let there_too : contains blocked node ≡ true =
            subst (λ a. contains blocked a ≡ true) on_l
              (subst (λ o. contains (get_blocked_nodes (or_nothing_deployed o)) x.0.vm_node ≡ true)
                (sym s) (add_blocked-contains [] d l at_l zero_l)) in
          ground (arith, both, fresh, there_too),
    )
