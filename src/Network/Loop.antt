-- ===== src/Network/Loop.antt =====
-- The loops of `AssignNodesIPs` of grid-client/workloads/network.go, with the octets in use.
use tfgrid_sdk_go.Prelude.{
  ℕ, ◌≤◌, ◌≡◌, ◌≢◌, true, false, ◌||◌, inl, inr, List, [], ◌∷◌, ◌++◌, Option, none, some, ok,
  ok_inj, bind_ok, Result-cases, Bool-cases, subst, arith, ◌==◌, if◌then◌else◌, contains,
  contains-append,
}
use tfgrid_sdk_go.Prelude.Maps
use tfgrid_sdk_go.Network.{
  IpNet, Ranges, ZNet, Assigning, next_free_ip, keep_ranges, node_range, assign_node, assign_nodes,
}
use tfgrid_sdk_go.Network.Free.{next_free_ip-first}

-- The third octet of the range for the access over WireGuard, where there is one.
abbrev pub octets_of : Option IpNet → List ℕ
octets_of none = []
octets_of (some ip) = ip.third ∷ []

abbrev pub access_octets : ZNet → List ℕ
access_octets z = if z.add_wg_access then octets_of z.external_ip else []

-- No two nodes' ranges have the same third octet, and none has one of the octets `access`.
abbrev pub IsApart : List ℕ → Ranges → Type 0
IsApart access ranges =
    ((j k : ℕ) (a b : IpNet)
      → j ≢ k
      → Maps.lookup j ranges ≡ some a
      → Maps.lookup k ranges ≡ some b
      → a.third ≢ b.third)
    × ((j : ℕ) (a : IpNet) → Maps.lookup j ranges ≡ some a → contains access a.third ≡ false)

-- What the loops maintain: all octets in use are on the list, and the next one is a byte.
unfoldable pub IsUsed : List ℕ → Assigning → Type 0
IsUsed access s =
    ((j : ℕ) (a : IpNet) → Maps.lookup j s.ips ≡ some a → contains s.used_ips a.third ≡ true)
    × ((i : ℕ) → contains access i ≡ true → contains s.used_ips i ≡ true)
    × (s.cur ≤ 255)

pub next_free_ip-unused :
    (used : List ℕ) (start : ℕ) {free : ℕ}
    → start ≤ 255
    → next_free_ip used start ≡ ok free
    → (contains used free ≡ false) × (free ≤ 255)
next_free_ip-unused used start l h = elim (next_free_ip-first used start l) [
  | inl (free, e, s0, s1, unused, all) ↦ (ground (arith, h, e, unused), ground (arith, h, e, s1))
  | inr (e, all) ↦ absurd (ground (arith, h, e))
]

-- The first loop keeps the old ranges of the nodes.
pub lookup-keep_ranges :
    (nodes : List ℕ) (old : Ranges) (j : ℕ)
    → Maps.lookup j (keep_ranges nodes old).ips
      ≡ (if contains nodes j then Maps.lookup j old else none)
unfolding keep_ranges Maps.lookup
lookup-keep_ranges nodes [] j = ground arith
lookup-keep_ranges nodes ((node, ip) ∷ old) j = ground (
  arith,
  lookup-keep_ranges nodes old j,
  Maps.lookup-insert j node ip (keep_ranges nodes old).ips,
)

pub keep_ranges-IsUsed : (nodes : List ℕ) (old : Ranges) → IsUsed [] (keep_ranges nodes old)
unfolding keep_ranges IsUsed Maps.lookup
keep_ranges-IsUsed nodes [] = (λ j a h. ground (arith, h), λ i h. ground (arith, h), omega arith)
keep_ranges-IsUsed nodes ((node, ip) ∷ old) =
    let s = keep_ranges nodes old in
    let (all, none_of, l) = keep_ranges-IsUsed nodes old in
    elim (Bool-cases (contains nodes node)) [
      | inl e ↦ rw e (
        λ j a h. ground (
          arith,
          h,
          Maps.lookup-insert j node ip s.ips,
          all j a,
          contains-append s.used_ips (ip.third ∷ []) a.third,
        ),
        λ i h. ground (arith, h),
        l,
      )
      | inr e ↦ rw e (all, none_of, l)
    ]

-- A range with an octet that is not used may be added.
IsApart-insert :
    (access used : List ℕ) (ranges : Ranges) (node : ℕ) (ip : IpNet)
    → IsApart access ranges
    → ((j : ℕ) (a : IpNet) → Maps.lookup j ranges ≡ some a → contains used a.third ≡ true)
    → ((i : ℕ) → contains access i ≡ true → contains used i ≡ true)
    → contains used ip.third ≡ false
    → IsApart access (Maps.insert node ip ranges)
IsApart-insert access used ranges node ip (apart, off) all on unused = (
  λ j k a b ne p q e. ground (
    arith,
    ne,
    p,
    q,
    e,
    Maps.lookup-insert j node ip ranges,
    Maps.lookup-insert k node ip ranges,
    apart j k a b ne,
    all j a,
    all k b,
    unused,
  ),
  λ j a p. elim (Bool-cases (node == j)) [
    | inl e ↦ ground (arith, e, p, Maps.lookup-insert j node ip ranges, on ip.third, unused)
    | inr e ↦ ground (arith, e, p, Maps.lookup-insert j node ip ranges, off j a)
  ],
)

-- What is kept from one state of the last loop to the next.
unfoldable pub Keeps : Ranges → Ranges → Type 0
Keeps before after =
    (j : ℕ) (a : IpNet) → Maps.lookup j before ≡ some a → Maps.lookup j after ≡ some a

unfoldable pub IsGood : List ℕ → Assigning → Type 0
IsGood access s = IsUsed access s × IsApart access s.ips

module _ (access : List ℕ) (net : IpNet) where
  -- From the state `s`, the nodes `nodes` are added.
  unfoldable pub Extends : List ℕ → Assigning → Assigning → Type 0
  Extends nodes s next =
      IsGood access next
      × Keeps s.ips next.ips
      × ((j : ℕ) → Maps.has j next.ips ≡ (Maps.has j s.ips || contains nodes j))

  added : ℕ → ℕ → Assigning → Assigning
  added node cur s = record {
    ips = Maps.insert node (node_range net cur) s.ips;
    used_ips = s.used_ips ++ cur ∷ [];
    cur = cur;
  }

  added-Extends :
      (node cur : ℕ) (s : Assigning)
      → IsGood access s
      → Maps.has node s.ips ≡ false
      → contains s.used_ips cur ≡ false
      → cur ≤ 255
      → Extends (node ∷ []) s (added node cur s)
  unfolding Extends added IsGood IsUsed Keeps Maps.has
  added-Extends node cur s ((all, on, l), apart) new unused m = (
    (
      (
        λ j a h. ground (
          arith,
          h,
          Maps.lookup-insert j node (node_range net cur) s.ips,
          all j a,
          contains-append s.used_ips (cur ∷ []) a.third,
        ),
        λ i h. ground (arith, on i h, contains-append s.used_ips (cur ∷ []) i),
        m,
      ),
      IsApart-insert access s.used_ips s.ips node (node_range net cur) apart all on unused,
    ),
    λ j a h. ground (arith, h, new, Maps.lookup-insert j node (node_range net cur) s.ips),
    λ j. ground (arith, Maps.lookup-insert j node (node_range net cur) s.ips),
  )

  assign_node-Extends :
      (node : ℕ) (s : Assigning) {next : Assigning}
      → IsGood access s
      → assign_node net node s ≡ ok next
      → Extends (node ∷ []) s next
  unfolding assign_node Extends IsGood IsUsed Keeps added
  assign_node-Extends node s {next} good h = elim (Bool-cases (Maps.has node s.ips)) [
    | inl e ↦
        let same : s ≡ next = ground (arith, e, h) in
        subst (Extends (node ∷ []) s) same (good, λ j a p. p, λ j. ground (arith, e))
    | inr e ↦ elim (Result-cases (next_free_ip s.used_ips s.cur)) [
      | inl (cur, found) ↦
          let (unused, m) = next_free_ip-unused s.used_ips s.cur good.0.2 found in
          let same : added node cur s ≡ next = ground (arith, e, h, found) in
          subst (Extends (node ∷ []) s) same (added-Extends node cur s good e unused m)
      | inr (x, full) ↦ absurd (ground (arith, e, h, full))
    ]
  ]

  pub assign_nodes-Extends :
      (nodes : List ℕ) (s : Assigning) {end : Assigning}
      → IsGood access s
      → assign_nodes net nodes s ≡ ok end
      → Extends nodes s end
  unfolding assign_nodes Extends Keeps
  assign_nodes-Extends [] s {end} good h =
      subst (Extends [] s) (ok_inj h) (good, λ j a p. p, λ j. ground arith)
  assign_nodes-Extends (node ∷ nodes) s {end} good h =
      let (next, e, rest) = bind_ok (assign_node net node s) (assign_nodes net nodes) h in
      let (good', keeps, has1) = assign_node-Extends node s good e in
      let (good'', keeps', has2) = assign_nodes-Extends nodes next good' rest in
      (good'', λ j a p. keeps' j a (keeps j a p), λ j. ground (arith, has1 j, has2 j))
