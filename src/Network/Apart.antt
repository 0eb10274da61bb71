-- ===== src/Network/Apart.antt =====
-- That the ranges which `AssignNodesIPs` of grid-client/workloads/network.go gives do not overlap.
use tfgrid_sdk_go.Prelude.{
  ℕ, ◌≡◌, true, inl, inr, List, none, some, Result-cases, subst, ap, arith, contains,
}
use tfgrid_sdk_go.Prelude.Maps
use tfgrid_sdk_go.Network.{
  IpNet, Ranges, ZNet, Assigning, keep_ranges, assign_access, assign_nodes, assign_nodes_ips,
}
use tfgrid_sdk_go.Network.Loop.{
  access_octets, IsApart, lookup-keep_ranges, keep_ranges-IsUsed, IsGood, Keeps, Extends,
  assign_nodes-Extends,
}
use tfgrid_sdk_go.Network.Access.{IsStart, assign_access-IsStart}

-- The part of the old ranges that stays does not overlap either.
keep_ranges-IsApart :
    (access nodes : List ℕ) (old : Ranges)
    → IsApart access old
    → IsApart access (keep_ranges nodes old).ips
keep_ranges-IsApart access nodes old (apart, off) = (
  λ j k a b ne p q.
      apart j k a b ne (ground (arith, p, lookup-keep_ranges nodes old j))
        (ground (arith, q, lookup-keep_ranges nodes old k)),
  λ j a p. off j a (ground (arith, p, lookup-keep_ranges nodes old j)),
)

-- The nodes of the new network, and what stays of the old one.
abbrev pub IsFor : List ℕ → Ranges → Ranges → Type 0
IsFor nodes old ranges =
    ((j : ℕ) → Maps.has j ranges ≡ contains nodes j)
    × ((j : ℕ) (a : IpNet)
        → contains nodes j ≡ true
        → Maps.lookup j old ≡ some a
        → Maps.lookup j ranges ≡ some a)

Extends-IsFor :
    (nodes : List ℕ) (old : Ranges) (access : List ℕ) (net : IpNet) (s end : Assigning)
    → Extends access net nodes s end
    → s.ips ≡ (keep_ranges nodes old).ips
    → IsFor nodes old end.ips
unfolding Extends Keeps Maps.has
Extends-IsFor nodes old access net s end (good, keeps, has) same = (
  λ j. ground (arith, has j, lookup-keep_ranges nodes old j, ap (Maps.lookup j) same),
  λ j a m p.
      keeps j a (ground (arith, m, p, lookup-keep_ranges nodes old j, ap (Maps.lookup j) same)),
)

-- If `AssignNodesIPs` succeeds on a network where no two of the nodes' ranges and, where there is
-- access over WireGuard, the external address have the same third octet: this holds of the new ranges
-- and the new external address too; exactly the given nodes have a range; and those that had one keep
-- it.
pub assign_nodes_ips-IsApart :
    (nodes : List ℕ) (z : ZNet) {z' : ZNet}
    → IsApart (access_octets z) z.nodes_ip_range
    → assign_nodes_ips nodes z ≡ (none, z')
    → IsApart (access_octets z') z'.nodes_ip_range × IsFor nodes z.nodes_ip_range z'.nodes_ip_range
unfolding assign_nodes_ips IsStart Extends IsGood Keeps
assign_nodes_ips-IsApart nodes z {z'} apart h =
    let s = keep_ranges nodes z.nodes_ip_range in
    elim (Result-cases (assign_access z s)) [
      | inl ((z1, s1), e) ↦
          let (good, same) =
            assign_access-IsStart z s (keep_ranges-IsUsed nodes z.nodes_ip_range) (z1, s1)
              (keep_ranges-IsApart (access_octets z) nodes z.nodes_ip_range apart) e in
          elim (Result-cases (assign_nodes z1.ip_range nodes s1)) [
            | inl (end, f) ↦
                let extends =
                  assign_nodes-Extends (access_octets z1) z1.ip_range nodes s1 {end = end} good f in
                let result : record z1 { nodes_ip_range = end.ips } ≡ z' =
                  ground (arith, h, e, f) in
                subst
                  (λ y.
                    IsApart (access_octets y) y.nodes_ip_range
                    × IsFor nodes z.nodes_ip_range y.nodes_ip_range)
                  result
                  (
                    extends.0.1,
                    Extends-IsFor nodes z.nodes_ip_range (access_octets z1) z1.ip_range s1 end
                        extends same,
                  )
            | inr (x, f) ↦ absurd (ground (arith, h, e, f))
          ]
      | inr (x, e) ↦ absurd (ground (arith, h, e))
    ]
