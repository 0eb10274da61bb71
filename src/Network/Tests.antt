-- ===== src/Network/Tests.antt =====
-- A network of two nodes with access over WireGuard, to which two nodes are added and from which one
-- is taken.
use tfgrid_sdk_go.Prelude.{◌≡◌, true, refl, [], ◌∷◌, none, some, arith}
use tfgrid_sdk_go.Prelude.Maps
use tfgrid_sdk_go.Network.{
  ip_net, ZNet, next_free_on, next_free_ip, keep_ranges, assign_external, assign_access,
  assign_node, assign_nodes, assign_nodes_ips,
}
use tfgrid_sdk_go.Network.Apart.{IsFor, assign_nodes_ips-IsApart}
use tfgrid_sdk_go.Network.Loop.{access_octets, IsApart}

abbrev old_network : ZNet
old_network = record {
  ip_range = ip_net 10 20 0 0 16;
  add_wg_access = true;
  external_ip = none;
  nodes_ip_range = (5, ip_net 10 20 2 0 24) ∷ (7, ip_net 10 20 4 0 24) ∷ [];
}

abbrev new_network : ZNet
new_network = record old_network {
  external_ip = some (ip_net 10 20 2 0 24);
  nodes_ip_range =
      (9, ip_net 10 20 5 0 24) ∷ (8, ip_net 10 20 3 0 24) ∷ (7, ip_net 10 20 4 0 24) ∷ [];
}

new_ok : assign_nodes_ips (7 ∷ 8 ∷ 9 ∷ []) old_network ≡ (none, new_network)
unfolding assign_nodes_ips keep_ranges assign_external assign_access assign_node assign_nodes
    next_free_on next_free_ip Maps.lookup Maps.remove Maps.insert Maps.has
new_ok = refl

old-IsApart : IsApart [] old_network.nodes_ip_range
unfolding Maps.lookup
old-IsApart = (λ j k a b ne p q e. ground (arith, ne, p, q, e), λ j a p. refl)

-- Without an external address yet, no octet is taken by it.
assign_nodes_ips-IsApart_example :
    IsApart (access_octets new_network) new_network.nodes_ip_range
    × IsFor (7 ∷ 8 ∷ 9 ∷ []) old_network.nodes_ip_range new_network.nodes_ip_range
assign_nodes_ips-IsApart_example =
    assign_nodes_ips-IsApart (7 ∷ 8 ∷ 9 ∷ []) old_network old-IsApart new_ok
