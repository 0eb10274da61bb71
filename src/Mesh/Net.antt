-- ===== src/Mesh/Net.antt =====
-- The network that generateDeployments of grid-client/workloads/network.go reads and writes, its keys
-- and its ports. The key 0 stands for the one that is not set.
use tfgrid_sdk_go.Prelude.{
  ℕ, List, [], ◌∷◌, ◌++◌, Option, none, some, Result, ok, err, ◌>>=◌, if◌then◌else◌, contains,
}
use tfgrid_sdk_go.Prelude.Maps
use tfgrid_sdk_go.Network.{IpNet, ip_net, ZNet}
use tfgrid_sdk_go.Mesh.Plan.{Host, no_host, MeshError, no_key, no_draws}

-- The keys of WireGuard: the public key of a private one, and the generation for a node and for the
-- access.
pub record KeySource : Type 0 where
  pub public_key : ℕ → ℕ
  pub generate_key : ℕ → Result ℕ ℕ
  pub generate_private_key : Result ℕ ℕ

pub record Endpoint : Type 0 where
  pub host : Host
  pub port : ℕ

-- `zos.Peer`; the peer for the access has no endpoint.
pub record WgPeer : Type 0 where
  pub subnet : IpNet
  pub wg_public_key : ℕ
  pub endpoint : Option Endpoint
  pub allowed_ips : List IpNet

-- `UserAccess` of the metadata.
pub record UserAccess : Type 0 where
  pub access_subnet : Option IpNet
  pub private_key : ℕ
  pub node_id : ℕ

-- What `ZosWorkload` is made of, with the access of the metadata.
pub record NetworkWorkload : Type 0 where
  pub node_subnet : IpNet
  pub wg_private_key : ℕ
  pub wg_listen_port : ℕ
  pub peers : List WgPeer
  pub access : UserAccess
  pub mycelium : Option ℕ

-- The arguments of `GenerateWGConfig`.
pub record WgConfig : Type 0 where
  pub address : IpNet
  pub access_private_key : ℕ
  pub node_public_key : ℕ
  pub node_endpoint : Endpoint
  pub network_ip_range : IpNet

-- The fields of `ZNet` that are read and written; `addressing` has those of `AssignNodesIPs`. The
-- key 0 stands for the one that is not set.
pub record MeshNet : Type 0 where
  pub addressing : ZNet
  pub nodes : List ℕ
  pub public_node_id : ℕ
  pub keys : List (ℕ × ℕ)
  pub wg_port : List (ℕ × ℕ)
  pub external_sk : ℕ
  pub access_wg_config : Option WgConfig
  pub mycelium_keys : List (ℕ × ℕ)

abbrev pub zero_net : IpNet
zero_net = ip_net 0 0 0 0 0

abbrev pub or_zero_net : Option IpNet → IpNet
or_zero_net none = zero_net
or_zero_net (some ip) = ip

abbrev pub or_zero : Option ℕ → ℕ
or_zero none = 0
or_zero (some n) = n

abbrev pub or_no_host : Option Host → Host
or_no_host none = no_host
or_no_host (some h) = h

abbrev pub wg_ip : IpNet → IpNet
wg_ip ip = ip_net 100 64 ip.second ip.third 32

-- `AssignNodesWGKey`.
unfoldable pub assign_keys : KeySource → List ℕ → List (ℕ × ℕ) → Result MeshError (List (ℕ × ℕ))
assign_keys ks [] keys = ok keys
assign_keys ks (node ∷ nodes) keys = do
  next ← if Maps.has node keys then ok keys else elim (ks.generate_key node) [
    | ok key ↦ ok (Maps.insert node key keys)
    | err e ↦ err (no_key e)
  ]
  assign_keys ks nodes next

-- The loop that draws until the port is not in use.
unfoldable pub draw_port : List ℕ → List ℕ → Result MeshError (ℕ × List ℕ)
draw_port used [] = err no_draws
draw_port used (p ∷ draws) =
    let rest = draw_port used draws in if contains used p then rest else ok (p, draws)

-- `usedPorts` and `znet.WGPort` beside the draws that are left.
pub record Ports : Type 0 where
  pub used_ports : List (ℕ × List ℕ)
  pub assigned : List (ℕ × ℕ)
  pub draws : List ℕ

abbrev pub or_no_ports : Option (List ℕ) → List ℕ
or_no_ports none = []
or_no_ports (some ports) = ports

unfoldable pub assign_ports : List ℕ → Ports → Result MeshError Ports
assign_ports [] s = ok s
assign_ports (node ∷ nodes) s = do
  drawn ← draw_port (or_no_ports (Maps.lookup node s.used_ports)) s.draws
  assign_ports nodes record {
    used_ports =
        Maps.insert node (or_no_ports (Maps.lookup node s.used_ports) ++ drawn.0 ∷ []) s.used_ports;
    assigned = Maps.insert node drawn.0 s.assigned;
    draws = drawn.1;
  }

abbrev pub range_in : MeshNet → ℕ → IpNet
range_in net node = or_zero_net (Maps.lookup node net.addressing.nodes_ip_range)

abbrev pub key_in : MeshNet → ℕ → ℕ
key_in net node = or_zero (Maps.lookup node net.keys)
