-- ===== src/Mesh.antt =====
-- `generateDeployments` of grid-client/workloads/network.go: the WireGuard peers of a network's nodes.
-- Keys and ports are numbers; `r.Intn` gives a list of draws, where the end of the list stands for a
-- loop that goes on; the text of an endpoint is its host and its port. On an error there are no
-- deployments, and what the function has written to the network by then is left out, as are the
-- texts of the metadata.
pub mod Net
pub mod Plan
pub mod Sorting
pub mod Planned
pub mod Peers
pub mod Outcome
pub mod Routes
mod Tests
use tfgrid_sdk_go.Prelude.{
  ℕ, ◌+◌, Bool, true, false, not, ◌&&◌, ◌||◌, List, [], ◌∷◌, ◌++◌, Option, none, some, Result, ok,
  err, ◌>>=◌, ltb, ◌==◌, if◌then◌else◌, contains, length,
}
use tfgrid_sdk_go.Prelude.Maps
use tfgrid_sdk_go.Network.{IpNet, ip_net, Ranges, ZNet, AddressError, assign_nodes_ips}
use tfgrid_sdk_go.Mesh.Plan.{
  Ip, Host, no_host, EndpointIps, MeshError, not_assigned, no_key, no_draws, Sorted, plan,
}
use tfgrid_sdk_go.Mesh.Net.{
  KeySource, Endpoint, WgPeer, UserAccess, NetworkWorkload, WgConfig, MeshNet, zero_net,
  or_zero_net, or_zero, or_no_host, wg_ip, assign_keys, draw_port, Ports, or_no_ports, assign_ports,
  range_in, key_in,
}

-- What the deployments are made of: the network as it is then, with the sorted nodes.
pub record Mesh : Type 0 where
  pub net : MeshNet
  pub sorted : Sorted

module _ (ks : KeySource) (m : Mesh) where
  abbrev pub range_of : ℕ → IpNet
  range_of node = range_in m.net node

  abbrev pub key_of : ℕ → ℕ
  key_of node = key_in m.net node

  abbrev pub endpoint_of : ℕ → Endpoint
  endpoint_of node = record {
    host = or_no_host (Maps.lookup node m.sorted.hosts);
    port = or_zero (Maps.lookup node m.net.wg_port);
  }

  abbrev pub external_net : IpNet
  external_net = or_zero_net m.net.addressing.external_ip

  unfoldable pub hidden_ranges : List ℕ → List IpNet
  hidden_ranges [] = []
  hidden_ranges (node ∷ nodes) = range_of node ∷ wg_ip (range_of node) ∷ hidden_ranges nodes

  abbrev pub access_ranges : List IpNet
  access_ranges =
      if m.net.addressing.add_wg_access then external_net ∷ wg_ip external_net ∷ [] else []

  unfoldable pub non_accessible_ip_ranges : List IpNet
  non_accessible_ip_ranges = hidden_ranges m.sorted.hidden_nodes ++ access_ranges

  unfoldable pub accessible_peer : ℕ → WgPeer
  accessible_peer peer = record {
    subnet = range_of peer;
    wg_public_key = ks.public_key (key_of peer);
    endpoint = some (endpoint_of peer);
    allowed_ips =
        range_of peer
        ∷ wg_ip (range_of peer)
        ∷ (if peer == m.net.public_node_id then non_accessible_ip_ranges else []);
  }

  unfoldable pub accessible_peers : ℕ → List ℕ → List WgPeer
  accessible_peers node [] = []
  accessible_peers node (peer ∷ peers) =
      let rest = accessible_peers node peers in
      if peer == node then rest else accessible_peer peer ∷ rest

  unfoldable pub access_peers : List WgPeer
  access_peers =
      if m.net.addressing.add_wg_access
      then record {
        subnet = external_net;
        wg_public_key = ks.public_key m.net.external_sk;
        endpoint = none;
        allowed_ips = external_net ∷ wg_ip external_net ∷ [];
      }
        ∷ []
      else []

  unfoldable pub hidden_peers : List ℕ → List WgPeer
  hidden_peers [] = []
  hidden_peers (peer ∷ peers) =
      record {
        subnet = range_of peer;
        wg_public_key = ks.public_key (key_of peer);
        endpoint = none;
        allowed_ips = range_of peer ∷ wg_ip (range_of peer) ∷ [];
      }
      ∷ hidden_peers peers

  unfoldable pub peers_of_accessible : ℕ → List WgPeer
  peers_of_accessible node =
      accessible_peers node m.sorted.accessible_nodes
      ++ (if node == m.net.public_node_id
          then access_peers ++ hidden_peers m.sorted.hidden_nodes
          else [])

  unfoldable pub peers_of_hidden : ℕ → List WgPeer
  peers_of_hidden node =
      if m.net.public_node_id == 0
      then []
      else record {
        subnet = range_of node;
        wg_public_key = ks.public_key (key_of m.net.public_node_id);
        endpoint = some (endpoint_of m.net.public_node_id);
        allowed_ips = m.net.addressing.ip_range ∷ ip_net 100 64 0 0 16 ∷ [];
      }
        ∷ []

  abbrev pub workload_of : ℕ → List WgPeer → NetworkWorkload
  workload_of node ps = record {
    node_subnet = range_of node;
    wg_private_key = key_of node;
    wg_listen_port = or_zero (Maps.lookup node m.net.wg_port);
    peers = ps;
    access = record {
      access_subnet = m.net.addressing.external_ip;
      private_key = m.net.external_sk;
      node_id = m.net.public_node_id;
    };
    mycelium = Maps.lookup node m.net.mycelium_keys;
  }

  unfoldable pub deploy_accessible :
      List ℕ → List (ℕ × NetworkWorkload) → List (ℕ × NetworkWorkload)
  deploy_accessible [] dls = dls
  deploy_accessible (node ∷ nodes) dls =
      deploy_accessible nodes (Maps.insert node (workload_of node (peers_of_accessible node)) dls)

  unfoldable pub deploy_hidden : List ℕ → List (ℕ × NetworkWorkload) → List (ℕ × NetworkWorkload)
  deploy_hidden [] dls = dls
  deploy_hidden (node ∷ nodes) dls =
      deploy_hidden nodes (Maps.insert node (workload_of node (peers_of_hidden node)) dls)

  unfoldable pub deployments_of : List (ℕ × NetworkWorkload)
  deployments_of =
      deploy_hidden m.sorted.hidden_nodes (deploy_accessible m.sorted.accessible_nodes [])

abbrev pub assigned_net : Option AddressError × ZNet → Result MeshError ZNet
assigned_net (none, z) = ok z
assigned_net (some e, z) = err (not_assigned e)

abbrev pub key_generated : Result ℕ ℕ → Result MeshError ℕ
key_generated (ok key) = ok key
key_generated (err e) = err (no_key e)

-- The access over WireGuard: its key, and the configuration for it.
unfoldable pub set_access : KeySource → Mesh → ℕ → MeshNet
set_access ks m sk = record (m.net) {
  external_sk = sk;
  access_wg_config = some record {
    address = wg_ip (external_net ks m);
    access_private_key = sk;
    node_public_key = ks.public_key (key_of ks m m.net.public_node_id);
    node_endpoint = endpoint_of ks m m.net.public_node_id;
    network_ip_range = m.net.addressing.ip_range;
  };
}

unfoldable pub external_key : KeySource → ℕ → Result MeshError ℕ
external_key ks sk = if sk == 0 then key_generated ks.generate_private_key else ok sk

unfoldable pub give_access : KeySource → Mesh → Result MeshError MeshNet
give_access ks m =
    if m.net.addressing.add_wg_access
    then (do sk ← external_key ks m.net.external_sk; ok (set_access ks m sk))
    else ok m.net

abbrev pub mesh_with : MeshNet → ℕ → ZNet → List (ℕ × ℕ) → Ports → Sorted → Mesh
mesh_with z public addressing keys ports s = record {
  net = record z {
    addressing = addressing;
    public_node_id = public;
    keys = keys;
    wg_port = ports.assigned;
  };
  sorted = s;
}

unfoldable pub generate_deployments :
    KeySource
    → MeshNet
    → EndpointIps
    → List (ℕ × List ℕ)
    → ℕ
    → List ℕ
    → Result MeshError (MeshNet × List (ℕ × NetworkWorkload))
generate_deployments ks z ips used_ports found draws = do
  planned ← plan ips z.addressing.add_wg_access z.nodes z.public_node_id found
  let s = planned.1
  let all_nodes = s.hidden_nodes ++ s.accessible_nodes
  addressing ← assigned_net (assign_nodes_ips all_nodes z.addressing)
  keys ← assign_keys ks all_nodes z.keys
  ports ←
      assign_ports all_nodes record { used_ports = used_ports; assigned = z.wg_port; draws = draws }
  net ← give_access ks (mesh_with z planned.0 addressing keys ports s)
  ok (net, deployments_of ks record { net = net; sorted = s })
