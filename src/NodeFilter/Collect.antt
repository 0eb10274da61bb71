-- ===== src/NodeFilter/Collect.antt =====
-- The loop of FilterNodes of grid-client/deployer/node_filter.go that takes nodes off the channel.
use tfgrid_sdk_go.Prelude.{
  ℕ, ◌<◌, ◌≡◌, inl, inr, true, false, List, [], ◌∷◌, ◌++◌, ◌==◌, length, length-append, All,
  All-append, Bool-cases, arith,
}
use tfgrid_sdk_go.NodeFilter.{ProxyNode, collect}

pub collect-All :
    (P : ProxyNode → Type 0) (count : ℕ) (nodes arriving : List ProxyNode)
    → All P nodes
    → All P arriving
    → All P (collect count nodes arriving).1
unfolding collect
collect-All P count nodes [] h k = h
collect-All P count nodes (n ∷ arriving) h k =
    let longer = All-append P nodes (n ∷ []) h (k.0, tt) in
    let more = collect-All P count (nodes ++ n ∷ []) arriving longer k.1 in
    elim (Bool-cases (length (nodes ++ n ∷ []) == count)) [
      | inl e ↦ rw e longer
      | inr e ↦ rw e more
    ]

pub collect_full :
    (count : ℕ) (nodes arriving : List ProxyNode)
    → (collect count nodes arriving).0 ≡ true
    → length (collect count nodes arriving).1 ≡ count
unfolding collect
collect_full count nodes [] h = absurd (ground (arith, h))
collect_full count nodes (n ∷ arriving) h = elim (Bool-cases (length (nodes ++ n ∷ []) == count)) [
  | inl e ↦ rw e (ground (arith, e))
  | inr e ↦ rw e (collect_full count (nodes ++ n ∷ []) arriving (rw e at h))
]

pub collect_short :
    (count : ℕ) (nodes arriving : List ProxyNode)
    → length nodes < count
    → (collect count nodes arriving).0 ≡ false
    → length (collect count nodes arriving).1 < count
unfolding collect
collect_short count nodes [] l h = l
collect_short count nodes (n ∷ arriving) l h =
    elim (Bool-cases (length (nodes ++ n ∷ []) == count)) [
      | inl e ↦ absurd (ground (arith, h, e))
      | inr e ↦ rw e (
          collect_short count (nodes ++ n ∷ []) arriving
            (ground (arith, l, e, length-append nodes (n ∷ []))) (rw e at h))
    ]
