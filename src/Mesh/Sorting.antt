-- ===== src/Mesh/Sorting.antt =====
-- How generateDeployments of grid-client/workloads/network.go sorts the nodes by their endpoints.
use tfgrid_sdk_go.Prelude.{
  ℕ, ◌≡◌, ◌≢◌, Bool, true, false, ◌||◌, ◌⊎◌, inl, inr, List, [], ◌∷◌, ◌++◌, Option, none, some, ok,
  ◌==◌, contains, contains-append, arith, Bool-cases, Option-cases, ok_inj, subst, ==_iff,
}
use tfgrid_sdk_go.Prelude.Maps
use tfgrid_sdk_go.Mesh.Plan.{Ip, ipv4, ipv6, EndpointIps, Sorted, sort_found, sort_node, sort_nodes}

-- The nodes of the network, the sorted ones.
abbrev pub contains_node : Sorted → ℕ → Bool
contains_node s j = contains s.hidden_nodes j || contains s.accessible_nodes j

-- Hidden nodes have no endpoint, accessible ones are not such, and the IPv4 node is one of them.
pub record IsSorted (ips : EndpointIps) (s : Sorted) : Type 0 where
  pub hides : (j : ℕ) → contains s.hidden_nodes j ≡ true → Maps.lookup j ips ≡ some none
  pub reaches : (j : ℕ) → contains s.accessible_nodes j ≡ true → Maps.lookup j ips ≢ some none
  pub has_ipv4 : (s.ipv4_node ≡ 0) ⊎ (contains s.accessible_nodes s.ipv4_node ≡ true)

-- A member of a list with a new last element is an old one or the new one.
pub contains-snoc :
    (P : ℕ → Type 0) (xs : List ℕ) (a : ℕ)
    → ((j : ℕ) → contains xs j ≡ true → P j)
    → P a
    → (j : ℕ) → contains (xs ++ a ∷ []) j ≡ true
    → P j
contains-snoc P xs a old new j h = elim (Bool-cases (a == j)) [
  | inl e ↦ subst P ((==_iff a j).0 e) new
  | inr e ↦ old j (ground (arith, e, h, contains-append xs (a ∷ []) j))
]

pub sort_found-IsSorted :
    (ips : EndpointIps) (node : ℕ) (ip : Option Ip) (s : Sorted)
    → Maps.lookup node ips ≡ some ip
    → IsSorted ips s
    → IsSorted ips (sort_found node ip s)
      × ((j : ℕ) → contains_node (sort_found node ip s) j ≡ (contains_node s j || node == j))
unfolding sort_found
sort_found-IsSorted ips node none s e r = (
  record {
    hides = contains-snoc (λ j. Maps.lookup j ips ≡ some none) s.hidden_nodes node r.hides e;
    reaches = r.reaches;
    has_ipv4 = r.has_ipv4;
  },
  λ j. ground (arith, contains-append s.hidden_nodes (node ∷ []) j),
)
sort_found-IsSorted ips node (some (ipv4 a)) s e r = (
  record {
    hides = r.hides;
    reaches =
        contains-snoc (λ j. Maps.lookup j ips ≢ some none) s.accessible_nodes node r.reaches
          (λ n. ground (arith, e, n));
    has_ipv4 = inr (ground (arith, contains-append s.accessible_nodes (node ∷ []) node));
  },
  λ j. ground (arith, contains-append s.accessible_nodes (node ∷ []) j),
)
sort_found-IsSorted ips node (some (ipv6 a)) s e r = (
  record {
    hides = r.hides;
    reaches =
        contains-snoc (λ j. Maps.lookup j ips ≢ some none) s.accessible_nodes node r.reaches
          (λ n. ground (arith, e, n));
    has_ipv4 = elim (r.has_ipv4) [
      | inl z ↦ inl z
      | inr c ↦ inr (ground (arith, c, contains-append s.accessible_nodes (node ∷ []) s.ipv4_node))
    ];
  },
  λ j. ground (arith, contains-append s.accessible_nodes (node ∷ []) j),
)

pub sort_nodes-IsSorted :
    (ips : EndpointIps) (nodes : List ℕ) (s : Sorted) {end : Sorted}
    → IsSorted ips s
    → sort_nodes ips nodes s ≡ ok end
    → IsSorted ips end × ((j : ℕ) → contains_node end j ≡ (contains_node s j || contains nodes j))
unfolding sort_nodes sort_node
sort_nodes-IsSorted ips [] s {end} r h =
    subst (λ t. IsSorted ips t × ((j : ℕ) → contains_node t j ≡ (contains_node s j || false)))
      (ok_inj h) (r, λ j. ground arith)
sort_nodes-IsSorted ips (node ∷ nodes) s {end} r h = elim (Option-cases (Maps.lookup node ips)) [
  | inl n ↦ absurd (ground (arith, h, n))
  | inr (ip, e) ↦
      let (r', more) = sort_found-IsSorted ips node ip s e r in
      let (sorted, all) =
        sort_nodes-IsSorted ips nodes (sort_found node ip s) {end = end} r'
          (ground (arith, h, e)) in
      (sorted, λ j. ground (arith, more j, all j))
]
