-- ===== src/Farmerbot/Power/Guards.antt =====
-- When `powerOff` of farmerbot/internal/power.go reaches the chain, and what both switches leave alone.
use tfgrid_sdk_go.Prelude.{
  ℕ, ◌+◌, ◌≤◌, ◌≡◌, ◌≢◌, refl, ◌⊎◌, inl, inr, true, false, List, ◌∷◌, Option, none, some, arith,
}
use tfgrid_sdk_go.Farmerbot.Capacity.{Capacity}
use tfgrid_sdk_go.Farmerbot.Env.{Substrate}
use tfgrid_sdk_go.Farmerbot.Node.{Node, periodic_wake_up_duration}
use tfgrid_sdk_go.Farmerbot.State.{State, Error, get_node}
use tfgrid_sdk_go.Farmerbot.State.Lookup.{
  ids, replace, get_node-replace, ids-replace, get_node-contains, count_on, count_on-replace,
}
use tfgrid_sdk_go.Farmerbot.Power.{
  call_up, call_down, woken, shut, power_on, power_off, power_off_refusal,
}
use tfgrid_sdk_go.Farmerbot.Power.Switch.{
  PowersOn, power_on-PowersOn, PowersOff, power_off-PowersOff, is_up,
}

-- At most what the system itself takes is used.
abbrev pub Within : Capacity → Capacity → Type 0
Within a b = (a.hru ≤ b.hru) × (a.sru ≤ b.sru) × (a.cru ≤ b.cru) × (a.mru ≤ b.mru)

-- What the farm promises about a node that is sent down.
pub record MayShutDown (now : ℕ) (f : State) (node : Node) : Type 0 where
  pub not_pinned : node.never_shut_down ≡ false
  pub not_public : node.has_public_config ≡ false
  pub not_claimed : node.timeout_claimed_resources ≤ now
  pub not_rented : node.has_active_rent_contract ≡ false
  pub not_contracted : node.has_active_contracts ≡ false
  pub idle : Within node.used node.system
  pub settled : node.last_time_power_state_changed + periodic_wake_up_duration ≤ now
  pub another_on : 2 ≤ count_on f.nodes

refusal-MayShutDown :
    (now : ℕ) (f : State) (node : Node)
    → power_off_refusal now f node ≡ none
    → MayShutDown now f node
unfolding power_off_refusal count_on
refusal-MayShutDown now f node h = ground arith

-- `power_off` sends no call to the chain, or one call to take the node down; then the node is found,
-- and it is not pinned, public, claimed, rented, contracted or used, has kept its power state for half
-- an hour, and two nodes are on.
pub power_off_calls :
    (sub : Substrate) (now node_id : ℕ) (f : State)
    → ((power_off sub now node_id f).1.calls ≡ f.calls)
      ⊎ ((node : Node) × (get_node f.nodes node_id ≡ some node)
          × MayShutDown now f node
          × ((power_off sub now node_id f).1.calls ≡ call_down node_id ∷ f.calls))
power_off_calls sub now node_id f = go (power_off-PowersOff sub now node_id f)
  where
    go :
        {r : Option Error × State}
        → PowersOff sub now node_id f r
        → (r.1.calls ≡ f.calls)
          ⊎ ((node : Node) × (get_node f.nodes node_id ≡ some node)
              × MayShutDown now f node
              × (r.1.calls ≡ call_down node_id ∷ f.calls))
    go (PowersOff.missing e) = inl refl
    go (PowersOff.already e d) = inl refl
    go (PowersOff.guarded node x e g) = inl refl
    go (PowersOff.refused node e d g) = inr (node, e, refusal-MayShutDown now f node g, refl)
    go (PowersOff.shuts node x e d g) = inr (node, e, refusal-MayShutDown now f node g, refl)

-- If a node of the farm is on, a node is on after `power_off`.
pub power_off_keeps_on :
    (sub : Substrate) (now node_id : ℕ) (f : State)
    → 1 ≤ count_on f.nodes
    → 1 ≤ count_on (power_off sub now node_id f).1.nodes
power_off_keeps_on sub now node_id f one = go (power_off-PowersOff sub now node_id f)
  where
    go : {r : Option Error × State} → PowersOff sub now node_id f r → 1 ≤ count_on r.1.nodes
    go (PowersOff.missing e) = one
    go (PowersOff.already e d) = one
    go (PowersOff.guarded node x e g) = one
    go (PowersOff.refused node e d g) = one
    go (PowersOff.shuts node x e d g) = omega (
      arith,
      (refusal-MayShutDown now f node g).another_on,
      count_on-replace f.nodes (shut now node),
    )

module _ (sub : Substrate) (now node_id : ℕ) (f : State) where
  -- What a switch of one node leaves alone: every other node, and the list of ids.
  abbrev Leaves : List Node → Type 0
  Leaves ns = (ids ns ≡ ids f.nodes) × ((k : ℕ) → k ≢ node_id → get_node ns k ≡ get_node f.nodes k)

  replace-Leaves :
      (old node : Node)
      → get_node f.nodes node_id ≡ some old
      → node.id ≡ old.id
      → Leaves (replace f.nodes node)
  replace-Leaves old node found same =
      let here = get_node-contains f.nodes node_id found in
      (ids-replace f.nodes node, λ k other. ground (arith, here, get_node-replace f.nodes node k))

  power_on-Leaves : {r : Option Error × State} → PowersOn sub now node_id f r → Leaves r.1.nodes
  power_on-Leaves (PowersOn.missing e) = (refl, λ k _. refl)
  power_on-Leaves (PowersOn.already e d) = (refl, λ k _. refl)
  power_on-Leaves (PowersOn.refused e d x) = (refl, λ k _. refl)
  power_on-Leaves (PowersOn.wakes node e d s) = replace-Leaves node (woken now node) e refl

  power_off-Leaves : {r : Option Error × State} → PowersOff sub now node_id f r → Leaves r.1.nodes
  power_off-Leaves (PowersOff.missing e) = (refl, λ k _. refl)
  power_off-Leaves (PowersOff.already e d) = (refl, λ k _. refl)
  power_off-Leaves (PowersOff.guarded node x e g) = (refl, λ k _. refl)
  power_off-Leaves (PowersOff.refused node e d g) = (refl, λ k _. refl)
  power_off-Leaves (PowersOff.shuts node x e d g) = replace-Leaves node (shut now node) e refl

  pub switch_ids :
      (ids (power_on sub now node_id f).1.nodes ≡ ids f.nodes)
      × (ids (power_off sub now node_id f).1.nodes ≡ ids f.nodes)
  switch_ids = (
    (power_on-Leaves (power_on-PowersOn sub now node_id f)).0,
    (power_off-Leaves (power_off-PowersOff sub now node_id f)).0,
  )

  -- Neither switch changes another node, or which ids the farm has.
  pub switch_frame :
      (k : ℕ)
      → k ≢ node_id
      → (ids (power_on sub now node_id f).1.nodes ≡ ids f.nodes)
        × (get_node (power_on sub now node_id f).1.nodes k ≡ get_node f.nodes k)
        × (ids (power_off sub now node_id f).1.nodes ≡ ids f.nodes)
        × (get_node (power_off sub now node_id f).1.nodes k ≡ get_node f.nodes k)
  switch_frame k other =
      let (i, g) = power_on-Leaves (power_on-PowersOn sub now node_id f) in
      let (j, h) = power_off-Leaves (power_off-PowersOff sub now node_id f) in
      (i, g k other, j, h k other)

  -- After a `power_on` that reports no error the node is on or waking up, and after one that
  -- reports an error the nodes are as they were.
  pub power_on_outcome :
      (((power_on sub now node_id f).0 ≡ none)
        × ((node : Node) × (get_node (power_on sub now node_id f).1.nodes node_id ≡ some node)
            × (is_up node.power_state ≡ true)))
      ⊎ (((power_on sub now node_id f).0 ≢ none) × ((power_on sub now node_id f).1.nodes ≡ f.nodes))
  power_on_outcome = go (power_on-PowersOn sub now node_id f)
    where
      go :
          {r : Option Error × State}
          → PowersOn sub now node_id f r
          → ((r.0 ≡ none)
              × ((node : Node) × (get_node r.1.nodes node_id ≡ some node)
                  × (is_up node.power_state ≡ true)))
            ⊎ ((r.0 ≢ none) × (r.1.nodes ≡ f.nodes))
      go (PowersOn.missing e) = inr ((λ h. cc), refl)
      go (PowersOn.already {node} e d) = inl (refl, (node, e, d))
      go (PowersOn.refused e d x) = inr ((λ h. cc), refl)
      go (PowersOn.wakes node e d s) =
          let here = get_node-contains f.nodes node_id e in
          inl (
            refl,
            (
              woken now node,
              ground (arith, here, get_node-replace f.nodes (woken now node) node_id),
              refl,
            ),
          )

-- A node that is down is woken, with one call to the chain, or nothing is stored.
pub power_on_asleep :
    (sub : Substrate) (now node_id : ℕ) (f : State) {node : Node}
    → get_node f.nodes node_id ≡ some node
    → is_up node.power_state ≡ false
    → (((power_on sub now node_id f).0 ≡ none)
        × (ids (power_on sub now node_id f).1.nodes ≡ ids f.nodes)
        × ((power_on sub now node_id f).1.calls ≡ call_up node_id ∷ f.calls))
      ⊎ ((e : Error) × ((power_on sub now node_id f).0 ≡ some e)
          × ((power_on sub now node_id f).1.nodes ≡ f.nodes))
power_on_asleep sub now node_id f {node} found asleep = go (power_on-PowersOn sub now node_id f)
  where
    go :
        {r : Option Error × State}
        → PowersOn sub now node_id f r
        → ((r.0 ≡ none) × (ids r.1.nodes ≡ ids f.nodes) × (r.1.calls ≡ call_up node_id ∷ f.calls))
          ⊎ ((e : Error) × (r.0 ≡ some e) × (r.1.nodes ≡ f.nodes))
    go (PowersOn.missing {e} h) = inr (e, refl, refl)
    go (PowersOn.already {node = other} h up) = ground (arith, found, h, up, asleep)
    go (PowersOn.refused {e = e} h d x) = inr (e, refl, refl)
    go (PowersOn.wakes other h d s) = inl (refl, ids-replace f.nodes (woken now other), refl)
