-- ===== src/Deployer/Validate.antt =====
-- `Validate` of grid-client/deployer/deployer.go: the checks before anything is deployed. The grid
-- proxy and the chain are read through their clients, which are parameters; what they answer stands
-- still while `Validate` runs. An error carries what its text names.
pub mod Budget
use tfgrid_sdk_go.Prelude.{
  ℕ, ◌+◌, ◌-◌, ◌*◌, ◌%◌, ◌^◌, Bool, true, false, not, ◌&&◌, ◌||◌, List, [], ◌∷◌, Option, none, some,
  Result, ok, err, ◌>>=◌, ◌>>◌, ltb, ◌==◌, if◌then◌else◌,
}
use tfgrid_sdk_go.Prelude.Maps
use tfgrid_sdk_go.Deployer.Zos.{
  ZosPackages, ZosCapacity, Deployment, gateway_fqdn_proxy, gateway_name_proxy, valid, has_workload,
  count_deployment_public_ips, deployment_capacity, u64_add,
}

-- The proxy's capacity of a node.
pub record ProxyCapacity : Type 0 where
  pub total_cru : ℕ
  pub total_sru : ℕ
  pub total_hru : ℕ
  pub total_mru : ℕ

-- The fields of the proxy's `NodeWithNestedCapacity` that are read.
pub record NodeInfo : Type 0 where
  pub farm_id : ℕ
  pub total : ProxyCapacity
  pub used : ProxyCapacity
  pub has_ipv4 : Bool
  pub has_domain : Bool

-- `Node` and `Farms` of the proxy client, and `GetContract` of the chain with `PublicIPCount`. A farm
-- is the list of the contracts that its public addresses are reserved for.
pub record Proxy : Type 0 where
  pub node_info : ℕ → Result ℕ NodeInfo
  pub farms : ℕ → Result ℕ (List (List ℕ))
  pub contract_public_ips : ℕ → Result ℕ ℕ

pub data ValidateError : Type 0 where
  node_failed : ℕ → ℕ → ValidateError
  farm_failed : ℕ → ℕ → ValidateError
  farm_not_returned : ℕ → ValidateError
  node_not_returned : ℕ → ValidateError
  count_ips_failed : ℕ → ValidateError
  not_valid : ℕ → ValidateError
  capacity_failed : ℕ → ValidateError
  old_capacity_failed : ℕ → ValidateError
  contract_failed : ℕ → ℕ → ValidateError
  more_public_ips : ℕ → ℕ → ℕ → ValidateError
  not_enough_public_ips : ℕ → ValidateError
  no_ipv4 : ℕ → ValidateError
  no_domain : ℕ → ValidateError
  not_enough_resources : ℕ → ZosCapacity → ValidateError

abbrev pub Nodes : Type 0
Nodes = List (ℕ × NodeInfo)

abbrev pub Counts : Type 0
Counts = List (ℕ × ℕ)

abbrev pub wrap : {E A : Type 0} → (E → ValidateError) → Result E A → Result ValidateError A
wrap f (ok a) = ok a
wrap f (err e) = err (f e)

abbrev pub refuse_if : Bool → ValidateError → Result ValidateError (Unit {0})
refuse_if b e = if b then err e else ok tt

-- Reading a node puts it in the map, and its farm with no address yet.
abbrev pub read_node_info : Proxy → ℕ → Nodes × Counts → Result ValidateError (Nodes × Counts)
read_node_info proxy node (nodes, ips) = do
  info ← wrap (node_failed node) (proxy.node_info node)
  ok (Maps.insert node info nodes, Maps.insert info.farm_id 0 ips)

-- The loop over the old deployments.
unfoldable pub read_old_nodes :
    Proxy → List (ℕ × Deployment) → Nodes × Counts → Result ValidateError (Nodes × Counts)
read_old_nodes proxy [] s = ok s
read_old_nodes proxy ((node, dl) ∷ dls) s = do
  s' ← read_node_info proxy node s
  read_old_nodes proxy dls s'

-- The loop over the new ones, which skips the nodes that were read.
unfoldable pub read_new_nodes :
    Proxy → List (ℕ × Deployment) → Nodes × Counts → Result ValidateError (Nodes × Counts)
read_new_nodes proxy [] s = ok s
read_new_nodes proxy ((node, dl) ∷ dls) s = do
  s' ← if Maps.has node s.0 then ok s else read_node_info proxy node s
  read_new_nodes proxy dls s'

-- The addresses of a farm that no contract reserves.
unfoldable pub count_free : List ℕ → ℕ
count_free [] = 0
count_free (contract ∷ ips) = let rest = count_free ips in if contract == 0 then rest + 1 else rest

unfoldable pub free_of : ℕ → List (List ℕ) → Result ValidateError ℕ
free_of farm [] = err (farm_not_returned farm)
free_of farm (ips ∷ others) = ok (count_free ips)

-- The loop over the farms.
unfoldable pub count_farms : Proxy → Counts → Result ValidateError Counts
count_farms proxy [] = ok []
count_farms proxy ((farm, n) ∷ ips) = do
  returned ← wrap (farm_failed farm) (proxy.farms farm)
  free ← free_of farm returned
  rest ← count_farms proxy ips
  ok ((farm, n + free) ∷ rest)

abbrev pub or_none : Option ℕ → ℕ
or_none none = 0
or_none (some n) = n

-- `farmIPs[farm]`
unfoldable pub available : ℕ → Counts → ℕ
available farm ips = or_none (Maps.lookup farm ips)

abbrev pub returned_node : ℕ → Option NodeInfo → Result ValidateError NodeInfo
returned_node node none = err (node_not_returned node)
returned_node node (some info) = ok info

-- The loop that gives the addresses of the old deployments back.
unfoldable pub add_old_ips :
    ZosPackages → Nodes → List (ℕ × Deployment) → Counts → Result ValidateError Counts
add_old_ips zos nodes [] ips = ok ips
add_old_ips zos nodes ((node, dl) ∷ dls) ips = do
  info ← returned_node node (Maps.lookup node nodes)
  n ← wrap count_ips_failed (count_deployment_public_ips zos dl)
  add_old_ips zos nodes dls (Maps.insert info.farm_id (available info.farm_id ips + n) ips)

-- `addCapacity`
unfoldable pub add_capacity : ProxyCapacity → ZosCapacity → ProxyCapacity
add_capacity cap add = record {
  total_cru = u64_add cap.total_cru add.cru;
  total_sru = u64_add cap.total_sru add.sru;
  total_hru = u64_add cap.total_hru add.hru;
  total_mru = u64_add cap.total_mru add.mru;
}

-- a - b on uint64, for numbers below 2 ^ 64.
abbrev pub u64_sub : ℕ → ℕ → ℕ
u64_sub a b = (a + 2 ^ 64 - b) % 2 ^ 64

abbrev pub free_capacity_of : ProxyCapacity → ProxyCapacity → ZosCapacity
free_capacity_of total used = record {
  cru = 0;
  sru = u64_sub (2 * total.total_sru % 2 ^ 64) used.total_sru;
  hru = u64_sub total.total_hru used.total_hru;
  mru = u64_sub total.total_mru used.total_mru;
  ipv4u = 0;
}

abbrev pub is_short : ZosCapacity → ZosCapacity → Bool
is_short free needed = ltb free.mru needed.mru || ltb free.sru needed.sru || ltb free.hru needed.hru

-- For a node with an old deployment: its capacity comes on top of the node's total, and the number
-- of public addresses must not grow.
unfoldable pub total_with_old :
    ZosPackages
    → Proxy
    → ℕ
    → ℕ
    → ProxyCapacity
    → Option Deployment
    → Result ValidateError ProxyCapacity
total_with_old zos proxy node required total none = ok total
total_with_old zos proxy node required total (some old_dl) = do
  old_cap ← wrap old_capacity_failed (deployment_capacity zos old_dl)
  current ← wrap (contract_failed old_dl.contract_id) (proxy.contract_public_ips old_dl.contract_id)
  refuse_if (ltb current required) (more_public_ips node current required)
  ok (add_capacity total old_cap)

-- The tests of one new deployment that do not change the counts, with the node's total.
unfoldable pub check_node :
    ℕ → NodeInfo → ProxyCapacity → Deployment → ZosCapacity → Result ValidateError (Unit {0})
check_node node info total dl needed = do
  refuse_if (has_workload dl.workloads gateway_fqdn_proxy && not info.has_ipv4) (no_ipv4 node)
  refuse_if (has_workload dl.workloads gateway_name_proxy && not info.has_domain) (no_domain node)
  refuse_if (is_short (free_capacity_of total info.used) needed)
      (not_enough_resources node (free_capacity_of total info.used))

-- The zero value, for a node that is not in the map.
abbrev pub no_capacity_info : ProxyCapacity
no_capacity_info = record { total_cru = 0; total_sru = 0; total_hru = 0; total_mru = 0 }

abbrev pub or_zero_info : Option NodeInfo → NodeInfo
or_zero_info (some info) = info
or_zero_info none = record {
  farm_id = 0;
  total = no_capacity_info;
  used = no_capacity_info;
  has_ipv4 = false;
  has_domain = false;
}

abbrev pub refuse_some : Option ℕ → Result ValidateError (Unit {0})
refuse_some none = ok tt
refuse_some (some e) = err (not_valid e)

-- A round of the loop over the new deployments, with the counts that it leaves.
unfoldable pub check_deployment :
    ZosPackages
    → Proxy
    → List (ℕ × Deployment)
    → Nodes
    → ℕ
    → Deployment
    → Counts
    → Result ValidateError Counts
check_deployment zos proxy old_deployments nodes node dl ips = do
  refuse_some (valid zos dl)
  needed ← wrap capacity_failed (deployment_capacity zos dl)
  required ← wrap count_ips_failed (count_deployment_public_ips zos dl)
  let info = or_zero_info (Maps.lookup node nodes)
  total ← total_with_old zos proxy node required info.total (Maps.lookup node old_deployments)
  refuse_if (ltb (available info.farm_id ips) required) (not_enough_public_ips info.farm_id)
  check_node node info total dl needed
  ok (Maps.insert info.farm_id (available info.farm_id ips - required) ips)

unfoldable pub check_deployments :
    ZosPackages
    → Proxy
    → List (ℕ × Deployment)
    → Nodes
    → List (ℕ × Deployment)
    → Counts
    → Result ValidateError Counts
check_deployments zos proxy old_deployments nodes [] ips = ok ips
check_deployments zos proxy old_deployments nodes ((node, dl) ∷ dls) ips = do
  ips' ← check_deployment zos proxy old_deployments nodes node dl ips
  check_deployments zos proxy old_deployments nodes dls ips'

-- `Validate`, with the counts that are left.
unfoldable pub validate_deployments :
    ZosPackages
    → Proxy
    → List (ℕ × Deployment)
    → List (ℕ × Deployment)
    → Result ValidateError Counts
validate_deployments zos proxy old_deployments new_deployments = do
  old_read ← read_old_nodes proxy old_deployments ([], [])
  both_read ← read_new_nodes proxy new_deployments old_read
  free ← count_farms proxy (both_read.1)
  ips ← add_old_ips zos (both_read.0) old_deployments free
  check_deployments zos proxy old_deployments (both_read.0) new_deployments ips
