-- ===== src/Network/Access.antt =====
-- The address for the access over WireGuard in `AssignNodesIPs` of
-- grid-client/workloads/network.go.
use tfgrid_sdk_go.Prelude.{
  ℕ, ◌≤◌, ◌≡◌, refl, true, false, inl, inr, List, [], ◌∷◌, ◌++◌, some, ok, Result-cases,
  Option-cases, Bool-cases, subst, arith, if◌then◌else◌, contains, contains-append,
}
use tfgrid_sdk_go.Network.{
  external_of, Ranges, ZNet, Assigning, next_free_ip, assign_external, assign_access,
}
use tfgrid_sdk_go.Network.Loop.{
  octets_of, access_octets, IsApart, IsUsed, next_free_ip-unused, IsGood,
}

-- The octet of the external address is put on the list.
reserve : ℕ → ℕ → Assigning → Assigning
reserve octet cur s = record s { used_ips = s.used_ips ++ octet ∷ []; cur = cur }

reserve-IsGood :
    (octet cur : ℕ) (s : Assigning)
    → IsUsed [] s
    → IsApart (octet ∷ []) s.ips
    → cur ≤ 255
    → IsGood (octet ∷ []) (reserve octet cur s)
unfolding reserve IsGood IsUsed
reserve-IsGood octet cur s (all, on, l) apart m = (
  (
    λ j a h. ground (arith, all j a h, contains-append s.used_ips (octet ∷ []) a.third),
    λ i h. ground (arith, h, contains-append s.used_ips (octet ∷ []) i),
    m,
  ),
  apart,
)

-- An octet that is not used is apart from all ranges.
IsApart-unused :
    (octet : ℕ) (s : Assigning)
    → IsUsed [] s
    → IsApart [] s.ips
    → contains s.used_ips octet ≡ false
    → IsApart (octet ∷ []) s.ips
unfolding IsUsed
IsApart-unused octet s (all, on, l) (apart, off) unused =
    (apart, λ j a h. ground (arith, all j a h, unused))

-- The state with which the last loop starts.
unfoldable pub IsStart : Ranges → ZNet × Assigning → Type 0
IsStart ranges (z, s) = IsGood (access_octets z) s × (s.ips ≡ ranges)

-- The octets in the form in which a case has them.
IsStart-with :
    (z : ZNet) (s : Assigning) {access : List ℕ} {ranges : Ranges}
    → access ≡ access_octets z
    → IsGood access s
    → s.ips ≡ ranges
    → IsStart ranges (z, s)
unfolding IsStart
IsStart-with z s e good same = (subst (λ xs. IsGood xs s) e good, same)

module _ (z : ZNet) (s : Assigning) (used : IsUsed [] s) (r : ZNet × Assigning) where
  assign_external-IsStart :
      z.add_wg_access ≡ true
      → IsApart (octets_of z.external_ip) s.ips
      → assign_external z s ≡ ok r
      → IsStart s.ips r
  unfolding assign_external IsUsed reserve
  assign_external-IsStart e apart h = elim (Option-cases z.external_ip) [
    | inl n ↦ elim (Result-cases (next_free_ip s.used_ips s.cur)) [
      | inl (cur, found) ↦
          let (unused, m) = next_free_ip-unused s.used_ips s.cur used.2 found in
          let z1 = record z { external_ip = some (external_of z.ip_range cur) } in
          let near =
            IsApart-unused cur s used (subst (λ o. IsApart (octets_of o) s.ips) n apart) unused in
          subst (IsStart s.ips) (ground (arith, h, n, found)) (
            IsStart-with z1 (reserve cur cur s) (ground (arith, e))
              (reserve-IsGood cur cur s used near m) refl)
      | inr (x, full) ↦ absurd (ground (arith, h, n, full))
    ]
    | inr (ip, k) ↦
        let near = subst (λ o. IsApart (octets_of o) s.ips) k apart in
        subst (IsStart s.ips) (ground (arith, h, k)) (
          IsStart-with z (reserve ip.third s.cur s) (ground (arith, e, k))
            (reserve-IsGood ip.third s.cur s used near used.2) refl)
  ]

  pub assign_access-IsStart :
      IsApart (access_octets z) s.ips → assign_access z s ≡ ok r → IsStart s.ips r
  unfolding assign_access IsGood
  assign_access-IsStart apart h = elim (Bool-cases z.add_wg_access) [
    | inl e ↦
        let near = subst (λ b. IsApart (if b then octets_of z.external_ip else []) s.ips) e apart in
        assign_external-IsStart e near (ground (arith, h, e))
    | inr e ↦
        let near = subst (λ b. IsApart (if b then octets_of z.external_ip else []) s.ips) e apart in
        subst (IsStart s.ips) (ground (arith, h, e))
          (IsStart-with z s {access = []} (ground (arith, e)) (used, near) refl)
  ]
