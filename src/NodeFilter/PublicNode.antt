-- ===== src/NodeFilter/PublicNode.antt =====
-- GetPublicNode of grid-client/deployer/node_filter.go.
use tfgrid_sdk_go.Prelude.{
  ℕ, ◌%◌, ◌^◌, Bool, true, false, not, ◌||◌, List, [], ◌∷◌, ◌++◌, none, some, Result, ok, err, ◌==◌,
  if◌then◌else◌, ◌>>=◌, contains,
}
use tfgrid_sdk_go.NodeFilter.{
  FilterOptions, ProxyNode, FilterError, no_public_ipv4, NodeInfo, FilterEnv, Disks, filter_nodes,
}

abbrev pub has_id : ℕ → List ProxyNode → Bool
has_id id [] = false
has_id id (n ∷ ns) = (n.node_id == id) || has_id id ns

-- The node that is appended has the address but no id, which is then 0.
abbrev pub forced_node : Result ℕ NodeInfo → List ProxyNode
forced_node (err e) = []
forced_node (ok info) =
    if info.info_ipv4 == 0
    then []
    else if not info.is_up
    then []
    else record { node_id = 0; public_ipv4 = info.info_ipv4 } ∷ []

unfoldable pub forced_nodes : FilterEnv → List ProxyNode → List ℕ → List ProxyNode
forced_nodes env nodes [] = []
forced_nodes env nodes (id ∷ preferred) =
    let rest = forced_nodes env nodes preferred in
    if has_id id nodes then rest else forced_node (env.node_info id) ++ rest

abbrev pub rotate : List ProxyNode → List ProxyNode
rotate [] = []
rotate (n ∷ ns) = ns ++ n ∷ []

-- The loop that swaps: `front` ends at `lastPreferred`, and `back` goes on up to `i`.
unfoldable pub prefer : List ℕ → List ProxyNode → List ProxyNode → List ProxyNode → List ProxyNode
prefer preferred front back [] = front ++ back
prefer preferred front back (n ∷ ns) =
    if contains preferred n.node_id
    then prefer preferred (front ++ n ∷ []) (rotate back) ns
    else prefer preferred front (back ++ n ∷ []) ns

abbrev pub has_public_ip : FilterEnv → ProxyNode → Bool
has_public_ip env n = elim (env.parse_cidr n.public_ipv4) [
  | err e ↦ false
  | ok is_private ↦ not is_private
]

unfoldable pub first_public : FilterEnv → List ProxyNode → Result FilterError ℕ
first_public env [] = err no_public_ipv4
first_public env (n ∷ ns) =
    let rest = first_public env ns in if has_public_ip env n then ok (n.node_id % 2 ^ 32) else rest

abbrev pub public_options : FilterOptions
public_options = record {
  available_for = none;
  healthy = none;
  ipv4 = some true;
  status_up = true;
  free_sru = none;
  free_hru = none;
  others = 0;
}

abbrev pub no_disks : Disks
no_disks = record { ssd = []; hdd = []; rootfs = [] }

unfoldable pub get_public_node : FilterEnv → ℕ → List ℕ → Result FilterError ℕ
get_public_node env twin preferred = do
  nodes ← filter_nodes env twin public_options no_disks none
  first_public env (prefer preferred [] [] (nodes ++ forced_nodes env nodes preferred))
