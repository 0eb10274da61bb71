-- ===== src/Farmerbot/FindNode/Complete.antt =====
-- That `findNode` of farmerbot/internal/find_node.go finds a node where there is one.
use tfgrid_sdk_go.Prelude.{
  ℕ, ◌≡◌, subst, inl, inr, Bool, true, List, [], none, ok, keep, list_cases, IsIn, IsIn-keep,
}
use tfgrid_sdk_go.Prelude.Dedup.{Distinct}
use tfgrid_sdk_go.Farmerbot.Env.{Substrate, FloatOps, TargetCall}
use tfgrid_sdk_go.Farmerbot.Node.{Node}
use tfgrid_sdk_go.Farmerbot.State.{State}
use tfgrid_sdk_go.Farmerbot.State.Lookup.{ids}
use tfgrid_sdk_go.Farmerbot.FindNode.{
  NodeFilterOption, options_capacity, with_num_gpu, enough_public_ips, is_possible, find_node,
}
use tfgrid_sdk_go.Farmerbot.FindNode.Choice.{Sorts, first_is_least, take_node_accepted}

not_in_nil : {n : Node} → IsIn n [] → ⊥
not_in_nil i = elim i [ ]

module _ (fl : FloatOps) (sort : List Node → List Node) (sub : Substrate) (now : ℕ)
    (options : NodeFilterOption) (f : State) where
  -- Where the sort sorts, the ids are distinct, the chain accepts calls to take nodes up, the public
  -- addresses suffice and some node of the farm passes the tests of the loop, `find_node` answers with
  -- a node.
  pub find_node_complete :
      {m : Node}
      → Sorts sort
      → Distinct (ids f.nodes)
      → ((cs : List TargetCall) (k : ℕ) → sub.set_node_power_target cs k true ≡ none)
      → enough_public_ips f (with_num_gpu options) ≡ true
      → IsIn m f.nodes
      → is_possible fl f (with_num_gpu options) (options_capacity options) m ≡ true
      → (k : ℕ) × ((find_node fl sort sub now options f).0 ≡ ok k)
  unfolding find_node
  find_node_complete {m} s distinct accepts enough listed pass = elim (list_cases (sort suitable)) [
    | inl empty ↦ absurd (
        not_in_nil
          (subst (IsIn m) empty (s.all_there suitable m (IsIn-keep test f.nodes listed pass))))
    | inr (n, rest, e) ↦
        let (there_n, _, _) = first_is_least sort s test f.nodes e in
        (
          n.id,
          rw (enough, find_node, e)
              (take_node_accepted sub now (with_num_gpu options) (options_capacity options) n f
                distinct there_n (accepts f.calls n.id)),
        )
  ]
    where
      test : Node → Bool
      test = is_possible fl f (with_num_gpu options) (options_capacity options)

      suitable : List Node
      suitable = keep test f.nodes
