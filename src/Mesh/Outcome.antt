-- ===== src/Mesh/Outcome.antt =====
-- What a successful run of generateDeployments of grid-client/workloads/network.go comes from.
use tfgrid_sdk_go.Prelude.{ℕ, ◌≡◌, inl, inr, List, ◌++◌, ok, arith, Result-cases, ap, ◌∙◌}
use tfgrid_sdk_go.Network.{assign_nodes_ips}
use tfgrid_sdk_go.Mesh.Plan.{EndpointIps, Sorted, plan}
use tfgrid_sdk_go.Mesh.{
  Mesh, deployments_of, assigned_net, set_access, give_access, mesh_with, generate_deployments,
}
use tfgrid_sdk_go.Mesh.Net.{KeySource, NetworkWorkload, MeshNet, Ports, assign_keys, assign_ports}

give_access-public :
    (ks : KeySource) (m : Mesh) {net : MeshNet}
    → give_access ks m ≡ ok net
    → net.public_node_id ≡ m.net.public_node_id
unfolding give_access set_access
give_access-public ks m h = ground (arith, h)

-- What a successful run comes from.
pub generate_deployments_ok :
    (ks : KeySource) (z : MeshNet) (ips : EndpointIps) (used_ports : List (ℕ × List ℕ)) (found : ℕ)
    (draws : List ℕ) {net : MeshNet} {dls : List (ℕ × NetworkWorkload)}
    → generate_deployments ks z ips used_ports found draws ≡ ok (net, dls)
    → (s : Sorted) × (plan ips z.addressing.add_wg_access z.nodes z.public_node_id found
        ≡ ok (net.public_node_id, s))
      × (dls ≡ deployments_of ks record { net = net; sorted = s })
unfolding generate_deployments
generate_deployments_ok ks z ips used_ports found draws {net} {dls} h =
    elim (Result-cases (plan ips z.addressing.add_wg_access z.nodes z.public_node_id found)) [
      | inr (e, p) ↦ absurd (ground (arith, h, p))
      | inl ((public, s), p) ↦
          let all_nodes = s.hidden_nodes ++ s.accessible_nodes in
          elim (Result-cases (assigned_net (assign_nodes_ips all_nodes z.addressing))) [
            | inr (e, a) ↦ absurd (ground (arith, h, p, a))
            | inl (addressing, a) ↦ elim (Result-cases (assign_keys ks all_nodes z.keys)) [
              | inr (e, k) ↦ absurd (ground (arith, h, p, a, k))
              | inl (keys, k) ↦
                  let start : Ports = record {
                    used_ports = used_ports;
                    assigned = z.wg_port;
                    draws = draws;
                  } in
                  elim (Result-cases (assign_ports all_nodes start)) [
                    | inr (e, w) ↦ absurd (ground (arith, h, p, a, k, w))
                    | inl (ports, w) ↦
                        let m = mesh_with z public addressing keys ports s in
                        elim (Result-cases (give_access ks m)) [
                          | inr (e, g) ↦ absurd (ground (arith, h, p, a, k, w, g))
                          | inl (net', g) ↦
                              let same : net' ≡ net = ground (arith, h, p, a, k, w, g) in
                              let made : dls ≡ deployments_of ks record { net = net'; sorted = s } =
                                ground (arith, h, p, a, k, w, g) in
                              let own = ap (λ (n : MeshNet). n.public_node_id) same in
                              (
                                s,
                                ground (arith, p, give_access-public ks m g, own),
                                made
                                    ∙ ap
                                        (λ (n : MeshNet).
                                          deployments_of ks record { net = n; sorted = s })
                                        same,
                              )
                        ]
                  ]
            ]
          ]
    ]
