-- ===== src/NodeFilter/Public.antt =====
-- The node that GetPublicNode of grid-client/deployer/node_filter.go chooses.
use tfgrid_sdk_go.Prelude.{
  ℕ, ◌%◌, ◌^◌, ◌≡◌, ◌≢◌, refl, ◌⊎◌, inl, inr, true, false, List, [], ◌∷◌, ◌++◌, ok, none, contains,
  All, All-append, All-map, All-IsIn, IsIn, IsIn-All, ◌==◌, here, there, Bool-cases, Result-cases,
  arith,
}
use tfgrid_sdk_go.NodeFilter.{ProxyNode, NodeInfo, FilterEnv, filter_nodes}
use tfgrid_sdk_go.NodeFilter.PublicNode.{
  forced_node, forced_nodes, has_id, rotate, prefer, has_public_ip, first_public, public_options,
  no_disks, get_public_node,
}

append-All :
    (P : ProxyNode → Type 0) (xs ys : List ProxyNode) → All P (xs ++ ys) → All P xs × All P ys
append-All P [] ys h = (tt, h)
append-All P (x ∷ xs) ys h = let (a, b) = append-All P xs ys h.1 in ((h.0, a), b)

All-rotate : (P : ProxyNode → Type 0) (xs : List ProxyNode) → All P xs → All P (rotate xs)
All-rotate P [] h = tt
All-rotate P (x ∷ xs) h = All-append P xs (x ∷ []) h.1 (h.0, tt)

rotate-All : (P : ProxyNode → Type 0) (xs : List ProxyNode) → All P (rotate xs) → All P xs
rotate-All P [] h = tt
rotate-All P (x ∷ xs) h = let (a, b) = append-All P xs (x ∷ []) h in (b.0, a)

module _ (preferred : List ℕ) where
  abbrev IsPreferred : ProxyNode → Type 0
  IsPreferred n = contains preferred n.node_id ≡ true

  abbrev IsOther : ProxyNode → Type 0
  IsOther n = contains preferred n.node_id ≡ false

  -- After a node that is not preferred there is none that is.
  abbrev PreferredFirst : List ProxyNode → Type 0
  PreferredFirst [] = Unit
  PreferredFirst (n ∷ ns) = (IsOther n → All IsOther ns) × PreferredFirst ns

  others-PreferredFirst : (ns : List ProxyNode) → All IsOther ns → PreferredFirst ns
  others-PreferredFirst [] h = tt
  others-PreferredFirst (n ∷ ns) h = (λ o. h.1, others-PreferredFirst ns h.1)

  append-PreferredFirst :
      (front back : List ProxyNode)
      → All IsPreferred front
      → All IsOther back
      → PreferredFirst (front ++ back)
  append-PreferredFirst [] back f b = others-PreferredFirst back b
  append-PreferredFirst (n ∷ front) back f b =
      (λ o. absurd (ground (arith, o, f.0)), append-PreferredFirst front back f.1 b)

  prefer-PreferredFirst :
      (front back ns : List ProxyNode)
      → All IsPreferred front
      → All IsOther back
      → PreferredFirst (prefer preferred front back ns)
  unfolding prefer
  prefer-PreferredFirst front back [] f b = append-PreferredFirst front back f b
  prefer-PreferredFirst front back (n ∷ ns) f b = elim (Bool-cases (contains preferred n.node_id)) [
    | inl e ↦ rw e (
        prefer-PreferredFirst (front ++ n ∷ []) (rotate back) ns
          (All-append IsPreferred front (n ∷ []) f (e, tt)) (All-rotate IsOther back b))
    | inr e ↦ rw e (
        prefer-PreferredFirst front (back ++ n ∷ []) ns f
          (All-append IsOther back (n ∷ []) b (e, tt)))
  ]

  -- The swaps keep the nodes.
  All-prefer :
      (P : ProxyNode → Type 0) (front back ns : List ProxyNode)
      → All P front
      → All P back
      → All P ns
      → All P (prefer preferred front back ns)
  unfolding prefer
  All-prefer P front back [] f b h = All-append P front back f b
  All-prefer P front back (n ∷ ns) f b h = elim (Bool-cases (contains preferred n.node_id)) [
    | inl e ↦ rw e (
        All-prefer P (front ++ n ∷ []) (rotate back) ns (All-append P front (n ∷ []) f (h.0, tt))
          (All-rotate P back b) h.1)
    | inr e ↦
        rw e (All-prefer P front (back ++ n ∷ []) ns f (All-append P back (n ∷ []) b (h.0, tt)) h.1)
  ]

  prefer-All :
      (P : ProxyNode → Type 0) (front back ns : List ProxyNode)
      → All P (prefer preferred front back ns)
      → All P front × All P back × All P ns
  unfolding prefer
  prefer-All P front back [] h = let (a, b) = append-All P front back h in (a, b, tt)
  prefer-All P front back (n ∷ ns) h = elim (Bool-cases (contains preferred n.node_id)) [
    | inl e ↦
        let (f, b, k) = prefer-All P (front ++ n ∷ []) (rotate back) ns (rw e at h) in
        let (g, m) = append-All P front (n ∷ []) f in (g, rotate-All P back b, (m.0, k))
    | inr e ↦
        let (f, b, k) = prefer-All P front (back ++ n ∷ []) ns (rw e at h) in
        let (g, m) = append-All P back (n ∷ []) b in (f, g, (m.0, k))
  ]

  module _ (env : FilterEnv) where
    -- The node has a public address, and is preferred if one of these nodes with one is.
    abbrev pub IsChosen : List ProxyNode → ℕ → ProxyNode → Type 0
    IsChosen ns id n =
        (id ≡ n.node_id % 2 ^ 32)
        × (has_public_ip env n ≡ true)
        × All (λ m. has_public_ip env m ≡ true → IsPreferred m → IsPreferred n) ns

    first_public-IsChosen :
        (ns : List ProxyNode) {id : ℕ}
        → PreferredFirst ns
        → first_public env ns ≡ ok id
        → (n : ProxyNode) × IsIn n ns × IsChosen ns id n
    unfolding first_public
    first_public-IsChosen [] p h = absurd (ground (arith, h))
    first_public-IsChosen (n ∷ ns) {id} p h = elim (Bool-cases (has_public_ip env n)) [
      | inl e ↦
          let same : id ≡ n.node_id % 2 ^ 32 = ground (arith, h, e) in
          let others : All (λ m. has_public_ip env m ≡ true → IsPreferred m → IsPreferred n) ns =
            elim (Bool-cases (contains preferred n.node_id)) [
              | inl c ↦ All-map ns (λ m a g k. c) (All-IsIn ns)
              | inr o ↦ All-map ns (λ m a g k. absurd (ground (arith, a, k))) (p.0 o)
            ] in
          (n, here refl, (same, e, ((λ g k. k), others)))
      | inr e ↦
          let (m, at, (same, g, others)) =
            first_public-IsChosen ns {id = id} p.1 (ground (arith, h, e)) in
          (m, there at, (same, g, ((λ a k. absurd (ground (arith, e, a))), others)))
    ]

    -- A preferred node that is not among those that the filter gave: the proxy knows it, it is up and
    -- has an address, which is all that is added of it; the id that is added is 0.
    abbrev pub IsForced : List ProxyNode → List ℕ → ProxyNode → Type 0
    IsForced nodes ids m =
        (id : ℕ) × (info : NodeInfo) × IsIn id ids
        × All (λ o. o.node_id ≢ id) nodes
        × (env.node_info id ≡ ok info)
        × (info.is_up ≡ true)
        × (info.info_ipv4 ≢ 0)
        × (m.public_ipv4 ≡ info.info_ipv4)
        × (m.node_id ≡ 0)

    forced_node-IsForced :
        (nodes : List ProxyNode) (ids : List ℕ) (id : ℕ)
        → IsIn id ids
        → All (λ o. o.node_id ≢ id) nodes
        → All (IsForced nodes ids) (forced_node (env.node_info id))
    forced_node-IsForced nodes ids id at absent = elim (Result-cases (env.node_info id)) [
      | inr (e, i) ↦ rw i tt
      | inl (info, i) ↦ elim (Bool-cases (info.info_ipv4 == 0)) [
        | inl z ↦ rw i (rw z tt)
        | inr z ↦ elim (Bool-cases info.is_up) [
          | inl u ↦
              let some_text : info.info_ipv4 ≢ 0 = ground (arith, z) in
              rw i (rw z (rw u ((id, info, at, absent, i, u, some_text, refl, refl), tt)))
          | inr u ↦ rw i (rw z (rw u tt))
        ]
      ]
    ]

    has_id-All :
        (id : ℕ) (nodes : List ProxyNode)
        → has_id id nodes ≡ false
        → All (λ o. o.node_id ≢ id) nodes
    has_id-All id [] h = tt
    has_id-All id (n ∷ nodes) h = (ground (arith, h), has_id-All id nodes (ground (arith, h)))

    forced_nodes-IsForced :
        (nodes : List ProxyNode) (ids : List ℕ)
        → All (IsForced nodes ids) (forced_nodes env nodes ids)
    unfolding forced_nodes
    forced_nodes-IsForced nodes [] = tt
    forced_nodes-IsForced nodes (id ∷ ids) =
        let rest : All (IsForced nodes (id ∷ ids)) (forced_nodes env nodes ids) =
          All-map (forced_nodes env nodes ids)
            (λ m h.
              let (k, info, at, absent, i, u, z, same, none_left) = h in
              (k, info, there at, absent, i, u, z, same, none_left))
            (forced_nodes-IsForced nodes ids) in
        elim (Bool-cases (has_id id nodes)) [
          | inl e ↦ rw e rest
          | inr e ↦ rw e (
              All-append (IsForced nodes (id ∷ ids)) (forced_node (env.node_info id))
                (forced_nodes env nodes ids)
                (forced_node-IsForced nodes (id ∷ ids) id (here refl) (has_id-All id nodes e)) rest)
        ]

    -- If `GetPublicNode` succeeds, the filter has given nodes, and it returns the id, modulo 2 ^ 32, of
    -- one of them; or of a preferred node that is not one of them, which the proxy knows to be up and
    -- to have an address, and this id is 0. The node has a public address; and its id is a preferred
    -- one if that of any of the filter's nodes or of those added is, and has a public address.
    pub get_public_node-IsChosen :
        (twin : ℕ) {id : ℕ}
        → get_public_node env twin preferred ≡ ok id
        → (nodes : List ProxyNode) × (n : ProxyNode) × (filter_nodes env twin public_options
              no_disks none
            ≡ ok nodes)
          × (IsIn n nodes ⊎ IsForced nodes preferred n)
          × IsChosen (nodes ++ forced_nodes env nodes preferred) id n
    unfolding get_public_node
    get_public_node-IsChosen twin {id} h =
        elim (Result-cases (filter_nodes env twin public_options no_disks none)) [
          | inr (e, f) ↦ absurd (ground (arith, h, f))
          | inl (nodes, f) ↦
              let all = nodes ++ forced_nodes env nodes preferred in
              let sorted = prefer preferred [] [] all in
              let (n, at, (same, g, best)) =
                first_public-IsChosen sorted {id = id} (prefer-PreferredFirst [] [] all tt tt)
                  (ground (arith, h, f)) in
              let (_, _, kept) =
                prefer-All (λ m. has_public_ip env m ≡ true → IsPreferred m → IsPreferred n) [] []
                  all best in
              let known =
                All-append (λ m. IsIn m nodes ⊎ IsForced nodes preferred m) nodes
                  (forced_nodes env nodes preferred) (All-map nodes (λ m i. inl i) (All-IsIn nodes))
                  (All-map (forced_nodes env nodes preferred) (λ m z. inr z)
                    (forced_nodes-IsForced nodes preferred)) in
              let origin =
                IsIn-All (λ m. IsIn m nodes ⊎ IsForced nodes preferred m) sorted
                  (All-prefer (λ m. IsIn m nodes ⊎ IsForced nodes preferred m) [] [] all tt tt
                    known)
                  at in
              (nodes, n, f, origin, (same, g, kept))
        ]
