-- ===== src/Farmerbot/FindNode/Choice.antt =====
-- Which node `findNode` of farmerbot/internal/find_node.go chooses, and what it leaves in the state.
use tfgrid_sdk_go.Prelude.{
  ℕ, ◌≤◌, ◌≡◌, refl, sym, subst, ◌⊎◌, inl, inr, Bool, true, false, ◌||◌, List, [], ◌∷◌, none, some,
  Result, ok, err, arith, if◌then◌else◌, All, IsIn, here, keep, keep-All_of, All-IsIn, IsIn-All,
  IsIn-keep, Bool-cases,
}
use tfgrid_sdk_go.Prelude.Dedup.{Distinct}
use tfgrid_sdk_go.Farmerbot.Capacity.{Capacity}
use tfgrid_sdk_go.Farmerbot.Env.{Substrate}
use tfgrid_sdk_go.Farmerbot.Node.{rank, Node, PowerState, off, shutting_down, state_eq}
use tfgrid_sdk_go.Farmerbot.State.{State, Error, power_on_found_failed, get_node}
use tfgrid_sdk_go.Farmerbot.State.Lookup.{ids, get_node-IsIn, get_node-replace, get_node-contains}
use tfgrid_sdk_go.Farmerbot.Power.{call_up, store_node, power_on}
use tfgrid_sdk_go.Farmerbot.Power.Switch.{is_up, store_node-eq-replace}
use tfgrid_sdk_go.Farmerbot.Power.Guards.{power_on_asleep}
use tfgrid_sdk_go.Farmerbot.Power.Switch.{power_on_accepted}
use tfgrid_sdk_go.Farmerbot.FindNode.{NodeFilterOption, claimed, take_node}

-- Each node is followed by nodes of the same or a higher power state.
abbrev pub Ordered : List Node → Type 0
Ordered [] = Unit
Ordered (n ∷ ns) = All (λ m. rank n.power_state ≤ rank m.power_state) ns × Ordered ns

-- What `sort.Slice` promises: the same elements, in the order of the comparison.
pub record Sorts (sort : List Node → List Node) : Type 0 where
  pub kept : (ns : List Node) (n : Node) → IsIn n (sort ns) → IsIn n ns
  pub all_there : (ns : List Node) (n : Node) → IsIn n ns → IsIn n (sort ns)
  pub ordered : (ns : List Node) → Ordered (sort ns)

module _ (sort : List Node → List Node) (s : Sorts sort) (p : Node → Bool) (ns : List Node) where
  -- The first of the sorted nodes passes the test, and none that passes comes before it.
  pub first_is_least :
      {n : Node} {rest : List Node}
      → sort (keep p ns) ≡ n ∷ rest
      → IsIn n ns
        × (p n ≡ true)
        × ((m : Node) → IsIn m ns → p m ≡ true → rank n.power_state ≤ rank m.power_state)
  first_is_least {n} {rest} e =
      let place : IsIn n (keep p ns) =
        s.kept (keep p ns) n (subst (λ l. IsIn n l) (sym e) (here refl)) in
      let (there_n, pass) =
        IsIn-All (λ m. IsIn m ns × (p m ≡ true)) (keep p ns)
          (keep-All_of (λ m. IsIn m ns) p ns (All-IsIn ns)) place in
      (
        there_n,
        pass,
        λ m a h. least m (subst (λ l. IsIn m l) e (s.all_there (keep p ns) m (IsIn-keep p ns a h))),
      )
    where
      sorted_first : Ordered (n ∷ rest)
      sorted_first = subst Ordered e (s.ordered (keep p ns))

      least : (m : Node) → IsIn m (n ∷ rest) → rank n.power_state ≤ rank m.power_state
      least m a =
          IsIn-All (λ k. rank n.power_state ≤ rank k.power_state) (n ∷ rest)
            (omega arith, sorted_first.0) a

module _ (now : ℕ) (o : NodeFilterOption) (cap : Capacity) (n : Node) where
  claimed-id : (claimed now o cap n).id ≡ n.id
  unfolding claimed
  claimed-id = ground arith

  claimed-power_state : (claimed now o cap n).power_state ≡ n.power_state
  unfolding claimed
  claimed-power_state = ground arith

abbrev pub is_asleep : Node → Bool
is_asleep n = state_eq n.power_state off || state_eq n.power_state shutting_down

is_asleep-is_up :
    (s : PowerState) → (state_eq s off || state_eq s shutting_down) ≡ true → is_up s ≡ false
is_asleep-is_up s h = ground arith

module _ (sub : Substrate) (now : ℕ) (o : NodeFilterOption) (cap : Capacity) (n : Node) (f : State)
    (distinct : Distinct (ids f.nodes)) (listed : IsIn n f.nodes) where
  -- What `find_node` leaves once it has chosen the node: the claim is stored and the farmerbot has
  -- called for a node that was down, or the nodes are as they were.
  abbrev pub Outcome : Result Error ℕ × State → Type 0
  Outcome r =
      ((r.0 ≡ ok n.id)
        × (get_node r.1.nodes n.id ≡ some (claimed now o cap n))
        × (r.1.calls ≡ (if is_asleep n then call_up n.id ∷ f.calls else f.calls)))
      ⊎ ((e : Error) × (r.0 ≡ err e) × (r.1.nodes ≡ f.nodes))

  found_n : get_node f.nodes n.id ≡ some n
  found_n = get_node-IsIn f.nodes distinct listed

  -- Storing the claim in a state with the same ids.
  stores_claim :
      (g : State)
      → ids g.nodes ≡ ids f.nodes
      → ((store_node g (claimed now o cap n)).0 ≡ none)
        × (get_node (store_node g (claimed now o cap n)).1.nodes n.id ≡ some (claimed now o cap n))
        × ((store_node g (claimed now o cap n)).1.calls ≡ g.calls)
  stores_claim g same = ground (
    arith,
    store_node-eq-replace g (claimed now o cap n),
    get_node-replace g.nodes (claimed now o cap n) n.id,
    get_node-contains f.nodes n.id found_n,
    claimed-id now o cap n,
    same,
  )

  pub take_node-Outcome : Outcome (take_node sub now o cap n f)
  unfolding take_node
  take_node-Outcome = elim (Bool-cases (is_asleep n)) [
    | inr awake ↦
        ground (arith, claimed-id now o cap n, claimed-power_state now o cap n, stores_claim f refl)
    | inl asleep ↦
        elim (power_on_asleep sub now n.id f found_n (is_asleep-is_up n.power_state asleep)) [
          | inl (done, same, called) ↦ ground (
            arith,
            claimed-id now o cap n,
            claimed-power_state now o cap n,
            stores_claim (power_on sub now n.id f).1 same,
          )
          | inr (e, failed, kept) ↦ inr (
            power_on_found_failed,
            ground (arith, claimed-id now o cap n, claimed-power_state now o cap n),
            ground (arith, claimed-id now o cap n, claimed-power_state now o cap n),
          )
        ]
  ]

  -- Where the chain accepts the call, the chosen node is the answer.
  pub take_node_accepted :
      sub.set_node_power_target f.calls n.id true ≡ none → (take_node sub now o cap n f).0 ≡ ok n.id
  unfolding take_node
  take_node_accepted sent = elim (Bool-cases (is_asleep n)) [
    | inr awake ↦
        ground (arith, claimed-id now o cap n, claimed-power_state now o cap n, stores_claim f refl)
    | inl asleep ↦
        elim (power_on_asleep sub now n.id f found_n (is_asleep-is_up n.power_state asleep)) [
          | inl (done, same, called) ↦ ground (
            arith,
            claimed-id now o cap n,
            claimed-power_state now o cap n,
            stores_claim (power_on sub now n.id f).1 same,
          )
          | inr (e, failed, kept) ↦ cc (failed, power_on_accepted sub now n.id f found_n sent)
        ]
  ]
