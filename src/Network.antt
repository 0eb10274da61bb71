-- ===== src/Network.antt =====
-- `AssignNodesIPs` of grid-client/workloads/network.go: the /24 ranges of a network's nodes. An
-- address is its last four octets, which the code reads at the indices l-4 to l-1. `range` over the
-- old ranges takes them in no fixed order: here the last one comes first.
pub mod Free
mod Loop
mod Access
pub mod Apart
mod Tests
use tfgrid_sdk_go.Prelude.{
  ℕ, zero, suc, ◌+◌, ◌-◌, Bool, ◌&&◌, List, [], ◌∷◌, ◌++◌, Option, none, some, Result, ok, err,
  ◌>>=◌, leb, ◌==◌, if◌then◌else◌, contains,
}
use tfgrid_sdk_go.Prelude.Maps

pub record IpNet : Type 0 where
  pub first : ℕ
  pub second : ℕ
  pub third : ℕ
  pub fourth : ℕ
  pub mask : ℕ

abbrev pub ip_net : ℕ → ℕ → ℕ → ℕ → ℕ → IpNet
ip_net a b c d msk = record { first = a; second = b; third = c; fourth = d; mask = msk }

-- `zos.IPNet` by node.
abbrev pub Ranges : Type 0
Ranges = List (ℕ × IpNet)

-- The fields of `ZNet` that the assignment reads and writes.
pub record ZNet : Type 0 where
  pub ip_range : IpNet
  pub add_wg_access : Bool
  pub external_ip : Option IpNet
  pub nodes_ip_range : Ranges

pub data AddressError : Type 0 where
  no_free_ip : AddressError

-- The loop of `nextFreeIP`, which makes at most 255 - start rounds.
unfoldable pub next_free_on : ℕ → List ℕ → ℕ → ℕ
next_free_on zero used start = start
next_free_on (suc n) used start =
    let rest = next_free_on n used (start + 1) in
    if contains used start && leb start 254 then rest else start

unfoldable pub next_free_ip : List ℕ → ℕ → Result AddressError ℕ
next_free_ip used start =
    let free = next_free_on (255 - start) used start in
    if free == 255 then err no_free_ip else ok free

-- The local variables `ips`, `usedIPs` and `cur`.
pub record Assigning : Type 0 where
  pub ips : Ranges
  pub used_ips : List ℕ
  pub cur : ℕ

-- The first loop: the nodes that stay keep their ranges.
unfoldable pub keep_ranges : List ℕ → Ranges → Assigning
keep_ranges nodes [] = record { ips = []; used_ips = []; cur = 2 }
keep_ranges nodes ((node, ip) ∷ old) =
    let s = keep_ranges nodes old in
    if contains nodes node
    then record s { ips = Maps.insert node ip s.ips; used_ips = s.used_ips ++ ip.third ∷ [] }
    else s

abbrev pub external_of : IpNet → ℕ → IpNet
external_of net cur = ip_net net.first net.second cur net.fourth 24

-- The part for the access over WireGuard.
unfoldable pub assign_external : ZNet → Assigning → Result AddressError (ZNet × Assigning)
assign_external z s = elim z.external_ip [
  | some ip ↦ ok (z, record s { used_ips = s.used_ips ++ ip.third ∷ [] })
  | none ↦ do
    cur ← next_free_ip s.used_ips s.cur
    ok (
      record z { external_ip = some (external_of z.ip_range cur) },
      record s { used_ips = s.used_ips ++ cur ∷ []; cur = cur },
    )
]

unfoldable pub assign_access : ZNet → Assigning → Result AddressError (ZNet × Assigning)
assign_access z s = if z.add_wg_access then assign_external z s else ok (z, s)

-- The last octet of a new range is the third one of the network, as in the code.
abbrev pub node_range : IpNet → ℕ → IpNet
node_range net cur = ip_net net.first net.second cur net.third 24

unfoldable pub assign_node : IpNet → ℕ → Assigning → Result AddressError Assigning
assign_node net node s = if Maps.has node s.ips then ok s else do
  cur ← next_free_ip s.used_ips s.cur
  ok record {
    ips = Maps.insert node (node_range net cur) s.ips;
    used_ips = s.used_ips ++ cur ∷ [];
    cur = cur;
  }

-- The last loop.
unfoldable pub assign_nodes : IpNet → List ℕ → Assigning → Result AddressError Assigning
assign_nodes net [] s = ok s
assign_nodes net (node ∷ nodes) s = do next ← assign_node net node s; assign_nodes net nodes next

abbrev pub after_nodes : ZNet → Result AddressError Assigning → Option AddressError × ZNet
after_nodes z (ok s) = (none, record z { nodes_ip_range = s.ips })
after_nodes z (err e) = (some e, z)

-- An error of the last loop leaves an external address that was assigned before it.
abbrev pub after_access :
    List ℕ → ZNet → Result AddressError (ZNet × Assigning) → Option AddressError × ZNet
after_access nodes z (ok (z', s)) = after_nodes z' (assign_nodes z'.ip_range nodes s)
after_access nodes z (err e) = (some e, z)

unfoldable pub assign_nodes_ips : List ℕ → ZNet → Option AddressError × ZNet
assign_nodes_ips nodes z =
    after_access nodes z (assign_access z (keep_ranges nodes z.nodes_ip_range))
