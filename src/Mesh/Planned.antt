-- ===== src/Mesh/Planned.antt =====
-- The nodes that the first part of `generateDeployments` of grid-client/workloads/network.go sorts.
use tfgrid_sdk_go.Prelude.{
  ℕ, ◌≤◌, ◌≡◌, ◌≢◌, refl, Bool, true, false, inl, inr, List, [], ◌∷◌, ◌++◌, none, some, ok, ◌==◌,
  contains, contains-append, length, length-append, arith, Bool-cases, Option-cases, Result-cases,
  subst, ◌∙◌,
}
use tfgrid_sdk_go.Prelude.Maps
use tfgrid_sdk_go.Mesh.Plan.{
  EndpointIps, Sorted, nothing_sorted, sort_nodes, needs_ipv4_access, add_public, choose_public,
  plan,
}
use tfgrid_sdk_go.Mesh.Sorting.{contains_node, IsSorted, sort_nodes-IsSorted}

-- What the rest of the function relies on: no node is hidden and accessible, all nodes of the network
-- are sorted, and where a hidden node is not alone, the public node is set and accessible.
pub record IsPlanned (nodes : List ℕ) (public : ℕ) (s : Sorted) : Type 0 where
  pub apart : (j : ℕ) → contains s.hidden_nodes j ≡ true → contains s.accessible_nodes j ≡ false
  pub covers : (j : ℕ) → contains nodes j ≡ true → contains_node s j ≡ true
  pub central :
      (i j : ℕ)
      → i ≢ j
      → contains s.hidden_nodes i ≡ true
      → contains_node s j ≡ true
      → (public ≢ 0) × (contains s.accessible_nodes public ≡ true)

member_pos : (xs : List ℕ) (i : ℕ) → contains xs i ≡ true → 1 ≤ length xs
member_pos [] i p = cc
member_pos (x ∷ xs) i p = omega arith

two_members :
    (xs : List ℕ) (i j : ℕ) → i ≢ j → contains xs i ≡ true → contains xs j ≡ true → 2 ≤ length xs
two_members [] i j ne p q = cc
two_members (x ∷ xs) i j ne p q = elim (Bool-cases (x == i)) [
  | inl e ↦ ground (arith, e, ne, q, member_pos xs j)
  | inr e ↦ ground (arith, e, p, member_pos xs i)
]

needs_for_hidden :
    (add_wg_access : Bool) (s : Sorted) (i j : ℕ)
    → i ≢ j
    → contains s.hidden_nodes i ≡ true
    → contains_node s j ≡ true
    → needs_ipv4_access add_wg_access s ≡ true
unfolding needs_ipv4_access
needs_for_hidden add_wg_access s i j ne p q =
    let few = member_pos s.hidden_nodes i p in
    let both =
      two_members (s.hidden_nodes ++ s.accessible_nodes) i j ne
        (ground (arith, p, contains-append s.hidden_nodes s.accessible_nodes i))
        (ground (arith, q, contains-append s.hidden_nodes s.accessible_nodes j)) in
    ground (arith, few, both, length-append s.hidden_nodes s.accessible_nodes)

module _ (ips : EndpointIps) (nodes : List ℕ) (s : Sorted) (r : IsSorted ips s)
    (all : (j : ℕ) → contains nodes j ≡ true → contains_node s j ≡ true) where
  sorted_apart : (j : ℕ) → contains s.hidden_nodes j ≡ true → contains s.accessible_nodes j ≡ false
  sorted_apart j h = elim (Bool-cases (contains s.accessible_nodes j)) [
    | inl e ↦ absurd (r.reaches j e (r.hides j h))
    | inr e ↦ e
  ]

  kept-IsPlanned : (a : ℕ) → a ≢ 0 → contains s.accessible_nodes a ≡ true → IsPlanned nodes a s
  kept-IsPlanned a pos e = record {
    apart = sorted_apart;
    covers = all;
    central = λ i j ne h c. (pos, e);
  }

  added-IsPlanned :
      (a : ℕ) (s' : Sorted)
      → a ≢ 0
      → Maps.lookup a ips ≢ some none
      → s'.hidden_nodes ≡ s.hidden_nodes
      → s'.accessible_nodes ≡ s.accessible_nodes ++ a ∷ []
      → IsPlanned nodes a s'
  added-IsPlanned a s' pos open_node same more = record {
    apart = λ j h. elim (Bool-cases (a == j)) [
      | inl e ↦ absurd (open_node (r.hides a (ground (arith, h, same, e))))
      | inr e ↦ rw more (
          ground (arith, h, same, e, sorted_apart j, contains-append s.accessible_nodes (a ∷ []) j))
    ];
    covers = λ j h.
        rw (same, more) (ground (arith, all j h, contains-append s.accessible_nodes (a ∷ []) j));
    central = λ i j ne h c.
        (pos, rw more (ground (arith, contains-append s.accessible_nodes (a ∷ []) a)));
  }

  add_public-IsPlanned :
      (found : ℕ) (public : ℕ) (s' : Sorted)
      → Maps.lookup found ips ≢ some none
      → add_public found (Maps.lookup found ips) s ≡ ok (public, s')
      → IsPlanned nodes public s'
  unfolding add_public
  add_public-IsPlanned found public s' open_node h = elim (Option-cases (Maps.lookup found ips)) [
    | inl n ↦ absurd (ground (arith, h, n))
    | inr (ip, e) ↦ elim (Bool-cases (found == 0)) [
      | inl z ↦ absurd (ground (arith, h, e, z))
      | inr pos ↦
          let same : found ≡ public = ground (arith, h, e, pos) in
          subst (λ a. IsPlanned nodes a s') same
            (added-IsPlanned found s' (ground (arith, pos)) open_node (ground (arith, h, e, pos))
              (ground (arith, h, e, pos)))
    ]
  ]

  choose_public-IsPlanned :
      (set found : ℕ) (public : ℕ) (s' : Sorted)
      → Maps.lookup set ips ≢ some none
      → Maps.lookup found ips ≢ some none
      → choose_public ips set found s ≡ ok (public, s')
      → IsPlanned nodes public s'
  unfolding choose_public
  choose_public-IsPlanned set found public s' open_set open_found h = elim (Bool-cases (set == 0)) [
    | inr pos ↦ elim (Bool-cases (contains s.accessible_nodes set)) [
      | inl e ↦
          let same : ◌≡◌ {A = ℕ × Sorted} (set, s) (public, s') = ground (arith, h, pos, e) in
          subst (λ (x : ℕ × Sorted). IsPlanned nodes x.0 x.1) same
            (kept-IsPlanned set (ground (arith, pos)) e)
      | inr e ↦
          let same : set ≡ public = ground (arith, h, pos, e) in
          subst (λ a. IsPlanned nodes a s') same
            (added-IsPlanned set s' (ground (arith, pos)) open_set (ground (arith, h, pos, e))
              (ground (arith, h, pos, e)))
    ]
    | inl unset ↦ elim (Bool-cases (s.ipv4_node == 0)) [
      | inl none_found ↦
          add_public-IsPlanned found public s' open_found (ground (arith, h, unset, none_found))
      | inr pos ↦
          let same : ◌≡◌ {A = ℕ × Sorted} (s.ipv4_node, s) (public, s') =
            ground (arith, h, unset, pos) in
          subst (λ (x : ℕ × Sorted). IsPlanned nodes x.0 x.1) same
            (elim (r.has_ipv4) [
              | inl z ↦ absurd (ground (arith, pos, z))
              | inr c ↦ kept-IsPlanned s.ipv4_node (ground (arith, pos)) c
            ])
    ]
  ]

-- Where neither the public node that is set nor the one that was found is hidden, the plan is fit for
-- the peers.
pub plan-IsPlanned :
    (ips : EndpointIps) (add_wg_access : Bool) (nodes : List ℕ) (set found : ℕ) (public : ℕ)
    (s : Sorted)
    → Maps.lookup set ips ≢ some none
    → Maps.lookup found ips ≢ some none
    → plan ips add_wg_access nodes set found ≡ ok (public, s)
    → IsPlanned nodes public s
unfolding plan
plan-IsPlanned ips add_wg_access nodes set found public s open_set open_found h =
    elim (Result-cases (sort_nodes ips nodes nothing_sorted)) [
      | inr (e, f) ↦ absurd (ground (arith, h, f))
      | inl (sorted, e) ↦
          let (r, members) =
            sort_nodes-IsSorted ips nodes nothing_sorted {end = sorted}
              (record { hides = λ j p. cc; reaches = λ j p. cc; has_ipv4 = inl refl }) e in
          let all = λ (j : ℕ) (p : contains nodes j ≡ true). members j ∙ p in
          elim (Bool-cases (needs_ipv4_access add_wg_access sorted)) [
            | inl needs ↦
                choose_public-IsPlanned ips nodes sorted r all set found public s open_set
                  open_found (ground (arith, h, e, needs))
            | inr no_need ↦
                let same : sorted ≡ s = ground (arith, h, e, no_need) in
                subst (IsPlanned nodes public) same record {
                  apart = sorted_apart ips nodes sorted r all;
                  covers = all;
                  central = λ i j ne p q.
                      absurd
                        (ground (arith, no_need, needs_for_hidden add_wg_access sorted i j ne p q));
                }
          ]
    ]
