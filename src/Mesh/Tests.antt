-- ===== src/Mesh/Tests.antt =====
-- A network of an IPv4 node, an IPv6 node and a hidden node, with access over WireGuard.
use tfgrid_sdk_go.Prelude.{ℕ, ◌+◌, true, List, [], ◌∷◌, none, some, Result, ok, err}
use tfgrid_sdk_go.Prelude.Maps
use tfgrid_sdk_go.Network.{ip_net}
use tfgrid_sdk_go.Mesh.Plan.{ipv4, ipv6, EndpointIps, MeshError}
use tfgrid_sdk_go.Mesh.{generate_deployments}
use tfgrid_sdk_go.Mesh.Net.{KeySource, MeshNet, NetworkWorkload}

-- The public key is the private one plus 1000; the key of a node is its number plus 100.
abbrev test_keys : KeySource
test_keys = record {
  public_key = λ key. key + 1000;
  generate_key = λ node. ok (node + 100);
  generate_private_key = ok 99;
}

abbrev test_ips : EndpointIps
test_ips = (1, some (ipv4 11)) ∷ (2, none) ∷ (3, some (ipv6 33)) ∷ []

abbrev test_net : MeshNet
test_net = record {
  addressing = record {
    ip_range = ip_net 10 20 0 0 16;
    add_wg_access = true;
    external_ip = none;
    nodes_ip_range = [];
  };
  nodes = 1 ∷ 2 ∷ 3 ∷ [];
  public_node_id = 0;
  keys = [];
  wg_port = [];
  external_sk = 0;
  access_wg_config = none;
  mycelium_keys = [];
}

generated : Result MeshError (MeshNet × List (ℕ × NetworkWorkload))
generated =
    generate_deployments test_keys test_net test_ips ((1, 2000 ∷ []) ∷ []) 0
      (3000 ∷ 2000 ∷ 2001 ∷ 2000 ∷ [])

abbrev first_of : Result MeshError (MeshNet × List (ℕ × NetworkWorkload)) → MeshNet
first_of (ok (net, dls)) = net
first_of (err e) = test_net

abbrev second_of :
    Result MeshError (MeshNet × List (ℕ × NetworkWorkload)) → List (ℕ × NetworkWorkload)
second_of (ok (net, dls)) = dls
second_of (err e) = []
