-- ===== src/Farmerbot/Round/Prune.antt =====
-- The loop of `iterateOnNodes` (farmerbot/internal/farmerbot.go) over the nodes that left the farm.
use tfgrid_sdk_go.Prelude.{
  ℕ, zero, suc, ◌+◌, ◌≤◌, ◌≡◌, refl, ap, ◌∙◌, inl, inr, true, false, List, [], ◌∷◌, ◌++◌,
  All-append, some, arith, length, get_elem?, contains, if◌then◌else◌, Bool-cases, Option-cases,
  All, subst, ==_refl,
}
use mathlib.Core.Option.{some_inj}
use tfgrid_sdk_go.Prelude.Dedup.{Distinct}
use tfgrid_sdk_go.Farmerbot.Node.{Node}
use tfgrid_sdk_go.Farmerbot.State.{get_node, delete_node}
use tfgrid_sdk_go.Farmerbot.State.Lookup.{ids, get_node-delete_node, Distinct-delete_node}
use tfgrid_sdk_go.Farmerbot.Round.{last_one, delete_in, prune, remove_missing}

-- What a round of the loop keeps: the ids are distinct, and the nodes of the farm stay.
abbrev pub Same : List ℕ → List Node → List Node → Type 0
Same farm_nodes ns ms =
    Distinct (ids ms) × ((k : ℕ) → contains farm_nodes k ≡ true → get_node ms k ≡ get_node ns k)

delete_node-Same :
    (farm_nodes : List ℕ) (ns ms : List Node) (j : ℕ)
    → Same farm_nodes ns ms
    → contains farm_nodes j ≡ false
    → Same farm_nodes ns (delete_node ms j)
delete_node-Same farm_nodes ns ms j s gone = (
  Distinct-delete_node ms j s.0,
  λ k listed. ground (arith, get_node-delete_node ms j k s.0, s.1 k listed, gone, listed),
)

delete_in-Same :
    (farm_nodes : List ℕ) (ns : List Node) (k : ℕ) (s : List Node × List Node)
    → Same farm_nodes ns s.0
    → contains farm_nodes k ≡ false
    → Same farm_nodes ns (delete_in k s).0
unfolding delete_in
delete_in-Same farm_nodes ns k (ms, stale) same gone = elim (Option-cases (get_node ms k)) [
  | inl absent ↦ rw (absent, delete_in) same
  | inr (n, found) ↦ rw (found, delete_in) (delete_node-Same farm_nodes ns ms k same gone)
]

prune-Same :
    (farm_nodes : List ℕ) (rounds i : ℕ) (ns : List Node) (s : List Node × List Node)
    → Same farm_nodes ns s.0
    → Same farm_nodes ns (prune farm_nodes rounds i s).0
unfolding prune
prune-Same farm_nodes zero i ns s same = same
prune-Same farm_nodes (suc rounds) i ns s same =
    prune-Same farm_nodes rounds (i + 1) ns _ (elim (Option-cases (get_elem? (s.0 ++ s.1) i)) [
      | inl past ↦ rw past same
      | inr (node, at) ↦ rw at (kept node.id)
    ])
  where
    kept : (k : ℕ) → Same farm_nodes ns (if contains farm_nodes k then s else delete_in k s).0
    kept k = elim (Bool-cases (contains farm_nodes k)) [
      | inl listed ↦ rw listed same
      | inr gone ↦ rw gone (delete_in-Same farm_nodes ns k s same gone)
    ]

-- Where the ids are distinct, the loop takes no node away that the farm still has, and the ids stay
-- distinct, although it deletes from the array that it ranges over.
pub remove_missing-Same :
    (farm_nodes : List ℕ) (ns : List Node)
    → Distinct (ids ns)
    → Same farm_nodes ns (remove_missing farm_nodes ns)
unfolding remove_missing
remove_missing-Same farm_nodes ns d =
    prune-Same farm_nodes (length ns) 0 ns (ns, []) (d, λ k listed. refl)

get_elem?-All :
    (P : Node → Type 0) (ns : List Node) (j : ℕ) {n : Node}
    → All P ns
    → get_elem? ns j ≡ some n
    → P n
get_elem?-All P [] j a h = cc
get_elem?-All P (x ∷ ns) zero a h = subst P (some_inj.0 h) a.0
get_elem?-All P (x ∷ ns) (suc j) a h = get_elem?-All P ns j a.1 h

All-last_one : (P : Node → Type 0) (ns : List Node) → All P ns → All P (last_one ns)
All-last_one P [] a = tt
All-last_one P (n ∷ []) a = a
All-last_one P (n ∷ m ∷ ns) a = All-last_one P (m ∷ ns) a.1

-- Rounds at places where the farm has every node change nothing.
prune-stays :
    (farm_nodes : List ℕ) (rounds i : ℕ) (s : List Node × List Node)
    → ((j : ℕ) (n : Node)
        → i ≤ j
        → get_elem? (s.0 ++ s.1) j ≡ some n
        → contains farm_nodes n.id ≡ true)
    → prune farm_nodes rounds i s ≡ s
unfolding prune
prune-stays farm_nodes zero i s later = refl
prune-stays farm_nodes (suc rounds) i s later =
    let rest = prune-stays farm_nodes rounds (i + 1) s (λ j n le at. later j n (omega arith) at) in
    (elim (Option-cases (get_elem? (s.0 ++ s.1) i)) [
      | inl past ↦ rw past rest
      | inr (n, at) ↦ rw (at, later i n (omega arith) at) rest
    ])

module _ (farm_nodes : List ℕ) (a b c : Node) (ns : List Node) where
  -- The array after the first round, where the first node left the farm.
  first_round : List Node × List Node
  first_round = (b ∷ c ∷ ns, last_one (c ∷ ns) ++ [])

  first_round-eq :
      contains farm_nodes a.id ≡ false
      → (if contains farm_nodes a.id
          then (a ∷ b ∷ c ∷ ns, [])
          else delete_in a.id (a ∷ b ∷ c ∷ ns, []))
        ≡ first_round
  unfolding delete_in delete_node get_node first_round
  first_round-eq gone = rw (gone, delete_in, ==_refl a.id, delete_node, ==_refl a.id) refl

  -- Of two nodes in front that both left the farm, followed by nodes that the farm has, at least one,
  -- the second stays: the loop deletes the first from the array under its own index, and steps over
  -- the second.
  pub remove_missing_skips :
      contains farm_nodes a.id ≡ false
      → contains farm_nodes b.id ≡ false
      → All (λ n. contains farm_nodes n.id ≡ true) (c ∷ ns)
      → remove_missing farm_nodes (a ∷ b ∷ c ∷ ns) ≡ b ∷ c ∷ ns
  unfolding remove_missing prune first_round
  remove_missing_skips a_left b_left stay =
      ap (λ s. (prune farm_nodes (suc (suc (length ns))) 1 s).0) (first_round-eq a_left)
      ∙ ap (λ s. s.0) (prune-stays farm_nodes (suc (suc (length ns))) 1 first_round later)
    where
      bad : 1 ≤ 0 → ⊥
      bad le = omega arith

      later :
          (j : ℕ) (n : Node)
          → 1 ≤ j
          → get_elem? ((b ∷ c ∷ ns) ++ (last_one (c ∷ ns) ++ [])) j ≡ some n
          → contains farm_nodes n.id ≡ true
      later zero n le at = absurd (bad le)
      later (suc j) n le at =
          get_elem?-All (λ m. contains farm_nodes m.id ≡ true)
            ((c ∷ ns) ++ (last_one (c ∷ ns) ++ [])) j
            (All-append _ (c ∷ ns) (last_one (c ∷ ns) ++ []) stay
              (All-append _ (last_one (c ∷ ns)) [] (All-last_one _ (c ∷ ns) stay) tt))
            at
