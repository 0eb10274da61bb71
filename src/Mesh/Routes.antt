-- ===== src/Mesh/Routes.antt =====
-- That the peers of `generateDeployments` (grid-client/workloads/network.go) connect all nodes.
use tfgrid_sdk_go.Prelude.{ℕ, ◌≡◌, ◌⊎◌, List}
use tfgrid_sdk_go.Prelude.Maps
use tfgrid_sdk_go.Mesh.Planned.{IsPlanned}
use tfgrid_sdk_go.Mesh.{Mesh, deployments_of}
use tfgrid_sdk_go.Mesh.Net.{KeySource, NetworkWorkload, MeshNet, range_in, key_in}
use tfgrid_sdk_go.Mesh.Peers.{HasPeer}

-- The node `i` sends what is for the range of `j` straight to `j`; or to the public node, by that
-- range or that of the whole network, and the public node is `j` or sends it straight to `j`.
abbrev pub Connects : KeySource → MeshNet → List (ℕ × NetworkWorkload) → ℕ → ℕ → Type 0
Connects ks net dls i j =
    let to_public = ks.public_key (key_in net net.public_node_id) in
    let to_j = ks.public_key (key_in net j) in
    HasPeer dls i to_j (range_in net j)
    ⊎ ((HasPeer dls i to_public (range_in net j) ⊎ HasPeer dls i to_public net.addressing.ip_range)
        × ((j ≡ net.public_node_id) ⊎ HasPeer dls net.public_node_id to_j (range_in net j)))

module _ (ks : KeySource) (m : Mesh) (nodes : List ℕ)
    (fit : IsPlanned nodes m.net.public_node_id m.sorted) where
  abbrev dls : List (ℕ × NetworkWorkload)
  dls = deployments_of ks m
