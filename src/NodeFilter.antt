-- ===== src/NodeFilter.antt =====
-- The filter of nodes of grid-client/deployer/node_filter.go: FilterNodes and getNodes; its children
-- Pools and PublicNode have hasEnoughStorage and GetPublicNode. The grid proxy, the nodes and `sort.Slice` are parameters; so is
-- the order in which the nodes of pages that are asked for at once come in. Texts are numbers, and the
-- text of an error of several pages is left out.
pub mod Pools
pub mod PublicNode
pub mod Storage
pub mod Collect
pub mod Found
pub mod Public
mod Tests
use tfgrid_sdk_go.Prelude.{
  ℕ, zero, suc, ◌+◌, ◌-◌, ◌%◌, ◌^◌, Bool, true, false, not, ◌&&◌, ◌||◌, List, [], ◌∷◌, ◌++◌, map,
  Option, none, some, Result, ok, err, ◌==◌, ltb, leb, if◌then◌else◌, ◌>>=◌, length, keep, contains,
}
use tfgrid_sdk_go.NodeFilter.Pools.{
  DeviceType, ssd_device, hdd_device, unknown_device, DevicePool, same_device, free_space,
  provision, provision_all, pools_of, is_empty, has_enough_storage,
}

-- The fields of `types.NodeFilter` that are read or set; `others` are those that are only handed on.
pub record FilterOptions : Type 0 where
  pub available_for : Option ℕ
  pub healthy : Option Bool
  pub ipv4 : Option Bool
  pub status_up : Bool
  pub free_sru : Option ℕ
  pub free_hru : Option ℕ
  pub others : ℕ

pub record Limit : Type 0 where
  pub page_size : ℕ
  pub page : ℕ
  pub ret_count : Bool

-- `types.Node`, with the text of its public IPv4 address.
pub record ProxyNode : Type 0 where
  pub node_id : ℕ
  pub public_ipv4 : ℕ

pub data FilterError : Type 0 where
  no_pages_count : ℕ → FilterError
  pages_failed : FilterError
  no_nodes_match : FilterError
  no_public_ipv4 : FilterError

-- `types.NodeWithNestedCapacity`; the text 0 is empty.
pub record NodeInfo : Type 0 where
  pub info_ipv4 : ℕ
  pub is_up : Bool

-- What one node is asked: its client, which may fail, and its pools. `arrive` is the order in which
-- the nodes of pages that are fetched at once come in; `pages_of` is `math.Ceil` of a quotient of
-- float64 numbers, and `parse_cidr` says whether the address of a text is private.
pub record FilterEnv : Type 0 where
  pub nodes : FilterOptions → Limit → Result ℕ (List ProxyNode × ℕ)
  pub client_error : ℕ → Option ℕ
  pub pools : ℕ → Result ℕ (List DevicePool)
  pub sort_pools : List DevicePool → List DevicePool
  pub sort_disks : List ℕ → List ℕ
  pub arrive : List (List ProxyNode) → List ProxyNode
  pub pages_of : ℕ → ℕ → ℕ
  pub node_info : ℕ → Result ℕ NodeInfo
  pub parse_cidr : ℕ → Result ℕ Bool

-- The disks that are asked for.
pub record Disks : Type 0 where
  pub ssd : List ℕ
  pub hdd : List ℕ
  pub rootfs : List ℕ

unfoldable pub pools_fit : FilterEnv → Disks → List DevicePool → Bool
pools_fit env disks pools =
    has_enough_storage env.sort_pools pools (env.sort_disks disks.hdd) hdd_device
    && has_enough_storage env.sort_pools pools (env.sort_disks disks.ssd ++ disks.rootfs) ssd_device

unfoldable pub node_fits : FilterEnv → Disks → ProxyNode → Bool
node_fits env disks node = elim (env.client_error (node.node_id % 2 ^ 32)) [
  | some e ↦ false
  | none ↦ elim (env.pools (node.node_id % 2 ^ 32)) [
    | err e ↦ false
    | ok pools ↦ pools_fit env disks pools
  ]
]

abbrev pub both_none : Option ℕ → Option ℕ → Bool
both_none none none = true
both_none none (some h) = false
both_none (some s) h = false

-- `getNodes`: the nodes that it sends.
abbrev pub sent_of :
    FilterEnv → Bool → Disks → Result ℕ (List ProxyNode × ℕ) → Result ℕ (List ProxyNode)
sent_of env all disks (err e) = err e
sent_of env all disks (ok (nodes, count)) =
    ok (if all then nodes else keep (node_fits env disks) nodes)

unfoldable pub get_nodes : FilterEnv → FilterOptions → Disks → Limit → Result ℕ (List ProxyNode)
get_nodes env o disks limit =
    sent_of env (both_none o.free_sru o.free_hru) disks (env.nodes o limit)

-- The pages of one round, from `i` on: at most `step` of them, up to the last one.
unfoldable pub pages_from : ℕ → ℕ → ℕ → List ℕ
pages_from i total zero = []
pages_from i total (suc step) =
    let rest = pages_from (i + 1) total step in if leb i total then i ∷ rest else []

-- The rounds: `i` goes up by `step`, so there are at most `total` of them.
unfoldable pub page_rounds : ℕ → ℕ → ℕ → ℕ → List (List ℕ)
page_rounds zero i total step = []
page_rounds (suc fuel) i total step =
    let rest = page_rounds fuel (i + step) total step in
    if leb i total then pages_from i total step ∷ rest else []

-- The nodes that the pages of a round send, and whether one of them failed.
unfoldable pub sent_pages : List (Result ℕ (List ProxyNode)) → List (List ProxyNode)
sent_pages [] = []
sent_pages (ok nodes ∷ rs) = nodes ∷ sent_pages rs
sent_pages (err e ∷ rs) = sent_pages rs

unfoldable pub some_failed : List (Result ℕ (List ProxyNode)) → Bool
some_failed [] = false
some_failed (ok nodes ∷ rs) = some_failed rs
some_failed (err e ∷ rs) = true

-- The loop over the channel: it ends early where there are `count` nodes.
unfoldable pub collect : ℕ → List ProxyNode → List ProxyNode → Bool × List ProxyNode
collect count nodes [] = (false, nodes)
collect count nodes (n ∷ arriving) =
    let more = collect count (nodes ++ n ∷ []) arriving in
    if length (nodes ++ n ∷ []) == count then (true, nodes ++ n ∷ []) else more

-- What all the rounds share; `size` is none where there is no `optionalLimit`.
pub record Query : Type 0 where
  pub options : FilterOptions
  pub disks : Disks
  pub limit_size : Option ℕ

abbrev pub nodes_count : Option ℕ → ℕ
nodes_count none = 50
nodes_count (some size) = size

abbrev pub limit_of : Option ℕ → ℕ → Limit
limit_of none i = record { page_size = 0; page = i; ret_count = false }
limit_of (some size) i = record { page_size = size; page = i; ret_count = true }

unfoldable pub page_results : FilterEnv → Query → List ℕ → List (Result ℕ (List ProxyNode))
page_results env q pages =
    map (λ i. get_nodes env q.options q.disks (limit_of q.limit_size i)) pages

abbrev pub or_no_match : List ProxyNode → Result FilterError (List ProxyNode)
or_no_match [] = err no_nodes_match
or_no_match (n ∷ nodes) = ok (n ∷ nodes)

unfoldable pub filter_rounds :
    FilterEnv → Query → List ProxyNode → Bool → List (List ℕ) → Result FilterError (List ProxyNode)
filter_rounds env q nodes failed [] = if failed then err pages_failed else err no_nodes_match
filter_rounds env q nodes failed (pages ∷ more) =
    let results = page_results env q pages in
    let got = collect (nodes_count q.limit_size) nodes (env.arrive (sent_pages results)) in
    let rest = filter_rounds env q got.1 (failed || some_failed results) more in
    if got.0 then ok got.1 else elim q.limit_size [ none ↦ or_no_match got.1 | some size ↦ rest ]

abbrev pub with_defaults : ℕ → FilterOptions → FilterOptions
with_defaults twin o = record o {
  available_for = some (or_twin o.available_for);
  healthy = some true;
}
  where
    or_twin : Option ℕ → ℕ
    or_twin none = twin
    or_twin (some t) = t

-- `getPagesCount`.
abbrev pub pages_count : FilterEnv → ℕ → Result ℕ (List ProxyNode × ℕ) → Result FilterError ℕ
pages_count env size (err e) = err (no_pages_count e)
pages_count env size (ok (nodes, count)) = ok (env.pages_of count size)

unfoldable pub filter_nodes :
    FilterEnv → ℕ → FilterOptions → Disks → Option ℕ → Result FilterError (List ProxyNode)
filter_nodes env twin o disks limit_size =
    let q : Query = record {
      options = with_defaults twin o;
      disks = disks;
      limit_size = limit_size;
    } in
    elim limit_size [
      | none ↦ filter_rounds env q [] false (page_rounds 1 1 1 1)
      | some size ↦ do
        total ← pages_count env size (env.nodes q.options (limit_of (some size) 0))
        filter_rounds env q [] false (page_rounds total 1 total 5)
    ]
