-- ===== src/Farmerbot/FindNode/Found.antt =====
-- The results of `findNode` in farmerbot/internal/find_node.go: what an answer promises, and what an
-- error leaves.
use tfgrid_sdk_go.Prelude.{
  ℕ, ◌≤◌, ◌≡◌, ◌⊎◌, inl, inr, true, false, List, ◌∷◌, some, ok, err, arith, if◌then◌else◌, contains,
  IsIn, keep, Bool-cases, list_cases,
}
use tfgrid_sdk_go.Prelude.Dedup.{Distinct}
use tfgrid_sdk_go.Farmerbot.Capacity.{Capacity, capacity_eq}
use tfgrid_sdk_go.Farmerbot.Env.{Substrate, FloatOps}
use tfgrid_sdk_go.Farmerbot.Node.{rank, Node, is_unused, free_capacity, can_claim_resources}
use tfgrid_sdk_go.Farmerbot.State.{State, Error, get_node, not_enough_public_ips, no_suitable_node}
use tfgrid_sdk_go.Farmerbot.State.Lookup.{ids}
use tfgrid_sdk_go.Farmerbot.Power.{call_up}
use tfgrid_sdk_go.Farmerbot.Power.Guards.{Within}
use tfgrid_sdk_go.Farmerbot.FindNode.{
  NodeFilterOption, options_capacity, with_num_gpu, enough_public_ips, enough_gpus, is_possible,
  claimed, take_node, find_node,
}
use tfgrid_sdk_go.Farmerbot.FindNode.Choice.{Sorts, first_is_least, is_asleep, take_node-Outcome}

-- What the caller asked of the node, for the options with at least one card where a card is named.
pub record Suits (fl : FloatOps) (f : State) (o : NodeFilterOption) (cap : Capacity) (n : Node)
    : Type 0 where
  pub gpus_enough : enough_gpus o n.gpus ≡ true
  pub certified_if : o.certified ≡ true → n.is_certified ≡ true
  pub public_if : o.public_config ≡ true → n.has_public_config ≡ true
  pub not_rented : n.has_active_rent_contract ≡ false
  pub dedicated_if : o.want_dedicated ≡ true → (n.dedicated ≡ true) × (is_unused n ≡ true)
  pub whole_if : o.want_dedicated ≡ false → n.dedicated ≡ true → cap ≡ n.total
  pub not_excluded : contains o.nodes_excluded n.id ≡ false
  pub fits_total : cap.cru ≤ n.total.cru
  pub fits_free : Within cap (free_capacity fl n f.config.power.over_provision_cpu)

claims-fits :
    (fl : FloatOps) (f : State) (cap : Capacity) (n : Node)
    → can_claim_resources fl n cap f.config.power.over_provision_cpu ≡ true
    → (cap.cru ≤ n.total.cru) × Within cap (free_capacity fl n f.config.power.over_provision_cpu)
unfolding can_claim_resources
claims-fits fl f cap n h = ground arith

capacity_eq-eq : (a b : Capacity) → capacity_eq a b ≡ true → a ≡ b
capacity_eq-eq a b h = ground arith

pub is_possible-Suits :
    (fl : FloatOps) (f : State) (o : NodeFilterOption) (cap : Capacity) (n : Node)
    → is_possible fl f o cap n ≡ true
    → Suits fl f o cap n
unfolding is_possible
is_possible-Suits fl f o cap n h = record {
  gpus_enough = ground arith;
  certified_if = ground arith;
  public_if = ground arith;
  not_rented = ground arith;
  dedicated_if = ground arith;
  whole_if = λ shared d. capacity_eq-eq cap n.total (ground arith);
  not_excluded = ground arith;
  fits_total = (claims-fits fl f cap n (ground arith)).0;
  fits_free = (claims-fits fl f cap n (ground arith)).1;
}

module _ (fl : FloatOps) (sort : List Node → List Node) (sub : Substrate) (now : ℕ)
    (options : NodeFilterOption) (f : State) where
  -- The capacity that the options ask for, and the options with the default number of cards.
  abbrev cap : Capacity
  cap = options_capacity options

  abbrev asked : NodeFilterOption
  asked = with_num_gpu options

  -- A node of the farm that suits the caller and has the least power state of those that do, with
  -- the claim on it stored under its id, and a call to the chain only where it was down.
  pub record Chosen (k : ℕ) (g : State) : Type 0 where
    pub node : Node
    pub listed : IsIn node f.nodes
    pub named : k ≡ node.id
    pub suits : Suits fl f asked cap node
    pub least :
        (m : Node)
        → IsIn m f.nodes
        → is_possible fl f asked cap m ≡ true
        → rank node.power_state ≤ rank m.power_state
    pub stored : get_node g.nodes k ≡ some (claimed now asked cap node)
    pub called : g.calls ≡ (if is_asleep node then call_up node.id ∷ f.calls else f.calls)

  -- The three ways that `find_node` goes.
  pub find_node_cases :
      ((e : Error) × (find_node fl sort sub now options f ≡ (err e, f)))
      ⊎ ((n : Node) × (rest : List Node) × (sort (keep (is_possible fl f asked cap) f.nodes)
            ≡ n ∷ rest)
          × (find_node fl sort sub now options f ≡ take_node sub now asked cap n f))
  unfolding find_node
  find_node_cases = elim (Bool-cases (enough_public_ips f asked)) [
    | inr short ↦ inl (not_enough_public_ips, rw short)
    | inl enough ↦ elim (list_cases (sort (keep (is_possible fl f asked cap) f.nodes))) [
      | inl e ↦ inl (no_suitable_node, rw (enough, e, find_node))
      | inr (n, rest, e) ↦ inr (n, rest, e, rw (enough, e, find_node))
    ]
  ]

  module _ (s : Sorts sort) (distinct : Distinct (ids f.nodes)) where
    -- Where the sort sorts and the ids are distinct: if `find_node` answers with a node, it is a node
    -- of the farm that meets every test of the options and has the least power state of the nodes
    -- that do, the claim on it is stored, and a call to the chain is made exactly if it was off or
    -- shutting down.
    pub find_node_ok :
        {k : ℕ}
        → (find_node fl sort sub now options f).0 ≡ ok k
        → Chosen k (find_node fl sort sub now options f).1
    find_node_ok {k} h = elim find_node_cases [
      | inl (e, r) ↦ cc
      | inr (n, rest, e, r) ↦
          let (listed, pass, least) =
            first_is_least sort s (is_possible fl f asked cap) f.nodes e in
          elim (take_node-Outcome sub now asked cap n f distinct listed) [
            | inr (x, failed, kept) ↦ cc
            | inl (answer, stored, called) ↦
                let same : k ≡ n.id = cc in
                record {
                  node = n;
                  listed = listed;
                  named = same;
                  suits = is_possible-Suits fl f asked cap n pass;
                  least = least;
                  stored = rw (r, same) stored;
                  called = rw r called;
                }
          ]
    ]

    -- Where the sort sorts and the ids are distinct: if `find_node` fails, the nodes are as they were.
    pub find_node_err :
        {e : Error}
        → (find_node fl sort sub now options f).0 ≡ err e
        → (find_node fl sort sub now options f).1.nodes ≡ f.nodes
    find_node_err h = elim find_node_cases [
      | inl (e, r) ↦ rw r
      | inr (n, rest, e, r) ↦
          let (listed, pass, least) =
            first_is_least sort s (is_possible fl f asked cap) f.nodes e in
          elim (take_node-Outcome sub now asked cap n f distinct listed) [
            | inr (x, failed, kept) ↦ rw r kept
            | inl (answer, stored, called) ↦ cc
          ]
    ]
