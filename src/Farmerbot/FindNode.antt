-- ===== src/Farmerbot/FindNode.antt =====
-- farmerbot/internal/find_node.go. `sort.Slice` is not stable, so the sort is a parameter: a function
-- of the list, which the proofs constrain by what its documentation says.
pub mod Choice
pub mod Complete
pub mod Found
pub mod Gpus
use tfgrid_sdk_go.Prelude.{
  ℕ, ◌+◌, ◌%◌, Bool, true, false, not, ◌||◌, ◌&&◌, List, [], ◌∷◌, ◌++◌, Option, none, some, Result,
  ok, err, keep, ltb, leb, ◌==◌, length, contains, if◌then◌else◌,
}
use tfgrid_sdk_go.Farmerbot.Capacity.{Capacity, capacity_eq, convert_gb_to_bytes, add_u64, u64_mod}
use tfgrid_sdk_go.Farmerbot.Env.{Substrate, FloatOps, Gpu}
use tfgrid_sdk_go.Farmerbot.Node.{
  PowerState, off, shutting_down, state_eq, Node, is_unused, can_claim_resources, claim_resources,
  timeout_power_state_change,
}
use tfgrid_sdk_go.Farmerbot.State.{
  State, Error, not_enough_public_ips, no_suitable_node, power_on_found_failed,
}
use tfgrid_sdk_go.Farmerbot.Power.{power_on, store_node}

pub record NodeFilterOption : Type 0 where
  pub nodes_excluded : List ℕ
  pub num_gpu : ℕ
  pub gpu_vendors : List ℕ
  pub gpu_devices : List ℕ
  pub certified : Bool
  pub want_dedicated : Bool
  pub public_config : Bool
  pub public_ips : ℕ
  pub hru : ℕ
  pub sru : ℕ
  pub cru : ℕ
  pub mru : ℕ

unfoldable pub options_capacity : NodeFilterOption → Capacity
unfolding convert_gb_to_bytes
options_capacity o = record {
  hru = convert_gb_to_bytes o.hru;
  sru = convert_gb_to_bytes o.sru;
  cru = o.cru;
  mru = convert_gb_to_bytes o.mru;
}

-- The inner loop of `filterGPUsByVendors` and `filterGPUsByDevices`: the card is appended once for
-- each entry that it equals.
unfoldable pub copies : ℕ → Gpu → List ℕ → List Gpu
copies key gpu [] = []
copies key gpu (x ∷ xs) = let rest = copies key gpu xs in if key == x then gpu ∷ rest else rest

unfoldable pub filter_gpus_by_vendors : List Gpu → List ℕ → List Gpu
unfolding copies
filter_gpus_by_vendors [] vendors = []
filter_gpus_by_vendors (g ∷ gs) vendors =
    copies g.vendor g vendors ++ filter_gpus_by_vendors gs vendors

unfoldable pub filter_gpus_by_devices : List Gpu → List ℕ → List Gpu
unfolding copies
filter_gpus_by_devices [] devices = []
filter_gpus_by_devices (g ∷ gs) devices =
    copies g.device g devices ++ filter_gpus_by_devices gs devices

-- One card is asked for at least where a vendor or a device is named.
unfoldable pub with_num_gpu : NodeFilterOption → NodeFilterOption
with_num_gpu o =
    if (ltb 0 (length o.gpu_vendors) || ltb 0 (length o.gpu_devices)) && o.num_gpu == 0
    then record o { num_gpu = 1 }
    else o

unfoldable pub enough_gpus : NodeFilterOption → List Gpu → Bool
unfolding filter_gpus_by_vendors filter_gpus_by_devices
enough_gpus o gpus =
    if ltb 0 o.num_gpu
    then (let gpus' =
          if ltb 0 (length o.gpu_vendors)
          then filter_gpus_by_vendors gpus o.gpu_vendors
          else gpus in
        let gpus'' =
          if ltb 0 (length o.gpu_devices)
          then filter_gpus_by_devices gpus' o.gpu_devices
          else gpus' in
        not (ltb (length gpus'') o.num_gpu))
    else true

-- Whether the loop over the nodes reaches its `append`: each line is one `continue` of the source.
unfoldable pub is_possible : FloatOps → State → NodeFilterOption → Capacity → Node → Bool
is_possible fl f o cap n =
    if not (enough_gpus o n.gpus)
    then false
    else if o.certified && not n.is_certified
    then false
    else if o.public_config && not n.has_public_config
    then false
    else if n.has_active_rent_contract
    then false
    else if o.want_dedicated && (not n.dedicated || not (is_unused n))
    then false
    else if not o.want_dedicated && n.dedicated && not (capacity_eq cap n.total)
    then false
    else if contains o.nodes_excluded n.id
    then false
    else can_claim_resources fl n cap f.config.power.over_provision_cpu

unfoldable pub public_ips_used : List Node → ℕ
public_ips_used [] = 0
public_ips_used (n ∷ ns) = add_u64 n.public_ips_used (public_ips_used ns)

unfoldable pub enough_public_ips : State → NodeFilterOption → Bool
unfolding public_ips_used
enough_public_ips f o =
    if ltb 0 o.public_ips
    then not (ltb f.farm.public_ips (add_u64 (public_ips_used f.nodes) o.public_ips))
    else true

-- The node with what it promises to the caller until the claim times out.
unfoldable pub claimed : ℕ → NodeFilterOption → Capacity → Node → Node
unfolding claim_resources
claimed now o cap n =
    let whole = o.want_dedicated || ltb 0 o.num_gpu in
    let m =
      claim_resources (record n { timeout_claimed_resources = now + timeout_power_state_change })
        (if whole then n.total else cap) in
    if ltb 0 o.public_ips
    then record m { public_ips_used = add_u64 m.public_ips_used o.public_ips }
    else m

-- The end of `findNode`, after the node was powered on where it had to be.
abbrev pub store_found : Node → Option Error × State → Result Error ℕ × State
store_found found (some e, g) = (err power_on_found_failed, g)
store_found found (none, g) =
    let (failed, h) = store_node g found in
    elim failed [ some e ↦ (err power_on_found_failed, h) | none ↦ (ok found.id, h) ]

-- What follows the choice of a node. The copy of the node that is stored at the end was made before
-- `powerOn`.
unfoldable pub take_node :
    Substrate → ℕ → NodeFilterOption → Capacity → Node → State → Result Error ℕ × State
take_node sub now o cap n f =
    let found = claimed now o cap n in
    let asleep = state_eq found.power_state off || state_eq found.power_state shutting_down in
    store_found found (if asleep then power_on sub now found.id f else (none, f))

unfoldable pub find_node :
    FloatOps
    → (List Node → List Node)
    → Substrate
    → ℕ
    → NodeFilterOption
    → State
    → Result Error ℕ × State
find_node fl sort sub now options f =
    let cap = options_capacity options in
    let o = with_num_gpu options in
    if not (enough_public_ips f o)
    then (err not_enough_public_ips, f)
    else (elim (sort (keep (is_possible fl f o cap) f.nodes)) [
      | [] ↦ (err no_suitable_node, f)
      | n ∷ rest ↦ take_node sub now o cap n f
    ])
