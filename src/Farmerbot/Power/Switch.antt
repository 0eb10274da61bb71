-- ===== src/Farmerbot/Power/Switch.antt =====
-- What `powerOn` and `powerOff` of farmerbot/internal/power.go do to the nodes.
use tfgrid_sdk_go.Prelude.{
  ℕ, ◌≡◌, refl, inl, inr, Bool, true, false, ◌||◌, ◌∷◌, Option, none, some, arith, contains,
  Option-cases, Bool-cases, Result-cases,
}
use tfgrid_sdk_go.Farmerbot.Env.{ChainError, Substrate}
use tfgrid_sdk_go.Farmerbot.Node.{PowerState, on, waking_up, off, shutting_down, state_eq, Node}
use tfgrid_sdk_go.Farmerbot.State.{State, Error, get_node}
use tfgrid_sdk_go.Farmerbot.State.Lookup.{
  ids, replace, update_node-eq-replace, ids-replace, get_node-contains,
}
use tfgrid_sdk_go.Farmerbot.Power.{
  call_up, call_down, set_target, store_node, woken, shut, power_on, power_on_node, power_off,
  power_off_node, power_off_failed, power_off_refusal,
}

-- Storing a node whose id is listed replaces it and does not fail.
pub store_node-eq-replace :
    (f : State) (node : Node)
    → contains (ids f.nodes) node.id ≡ true
    → store_node f node ≡ (none, record f { nodes = replace f.nodes node })
unfolding store_node
store_node-eq-replace f node h = ground (arith, update_node-eq-replace f.nodes node)

-- Storing a node never changes the ids.
pub store_node-ids : (f : State) (node : Node) → ids (store_node f node).1.nodes ≡ ids f.nodes
unfolding store_node
store_node-ids f node = elim (Bool-cases (contains (ids f.nodes) node.id)) [
  | inl listed ↦ rw (store_node-eq-replace f node listed) (ids-replace f.nodes node)
  | inr absent ↦ ground (arith, update_node-eq-replace f.nodes node)
]

pub store_node-config : (f : State) (node : Node) → (store_node f node).1.config ≡ f.config
unfolding store_node
store_node-config f node = ground arith

-- The states that `power_on` leaves alone.
abbrev pub is_up : PowerState → Bool
is_up s = state_eq s on || state_eq s waking_up

-- The states that `power_off` leaves alone.
abbrev pub is_down : PowerState → Bool
is_down s = state_eq s off || state_eq s shutting_down

-- All outcomes of `power_on`, as one case analysis of the code.
pub data PowersOn (sub : Substrate) (now node_id : ℕ) (f : State)
    : Option Error × State → Type 0 where
  missing : {e : Error} → get_node f.nodes node_id ≡ none → PowersOn sub now node_id f (some e, f)
  already :
      {node : Node}
      → get_node f.nodes node_id ≡ some node
      → is_up node.power_state ≡ true
      → PowersOn sub now node_id f (none, f)
  refused :
      {node : Node} {e : Error} {x : ChainError}
      → get_node f.nodes node_id ≡ some node
      → is_up node.power_state ≡ false
      → sub.set_node_power_target f.calls node_id true ≡ some x
      → PowersOn sub now node_id f (some e, set_target f (call_up node_id))
  wakes :
      (node : Node)
      → get_node f.nodes node_id ≡ some node
      → is_up node.power_state ≡ false
      → sub.set_node_power_target f.calls node_id true ≡ none
      → PowersOn sub now node_id f (
        none,
        record f { nodes = replace f.nodes (woken now node); calls = call_up node_id ∷ f.calls },
      )

power_on_node-PowersOn :
    (sub : Substrate) (now node_id : ℕ) (f : State) (node : Node)
    → get_node f.nodes node_id ≡ some node
    → PowersOn sub now node_id f (power_on_node sub now node_id f node)
unfolding power_on_node
power_on_node-PowersOn sub now node_id f node e = elim (Bool-cases (is_up node.power_state)) [
  | inl up ↦ rw up (already e up)
  | inr down ↦ elim (Option-cases (sub.set_node_power_target f.calls node_id true)) [
    | inl sent ↦
        rw
          (
            down,
            sent,
            store_node-eq-replace (set_target f (call_up node_id)) (woken now node)
                (rw (listed.0) listed.1),
          )
          (wakes node e down sent)
    | inr (x, failed) ↦ rw (down, failed) (refused e down failed)
  ]
]
  where
    listed : (node.id ≡ node_id) × (contains (ids f.nodes) node_id ≡ true)
    listed = get_node-contains f.nodes node_id e

-- Every call of `power_on` is one of the four.
pub power_on-PowersOn :
    (sub : Substrate) (now node_id : ℕ) (f : State)
    → PowersOn sub now node_id f (power_on sub now node_id f)
unfolding power_on
power_on-PowersOn sub now node_id f = elim (Option-cases (get_node f.nodes node_id)) [
  | inl e ↦ rw (e, power_on) (missing e)
  | inr (node, e) ↦ rw (e, power_on) (power_on_node-PowersOn sub now node_id f node e)
]

-- Where the chain accepts the call, `power_on` of a node that is found does not fail.
pub power_on_accepted :
    (sub : Substrate) (now node_id : ℕ) (f : State) {node : Node}
    → get_node f.nodes node_id ≡ some node
    → sub.set_node_power_target f.calls node_id true ≡ none
    → (power_on sub now node_id f).0 ≡ none
unfolding power_on power_on_node
power_on_accepted sub now node_id f {node} e sent = elim (Bool-cases (is_up node.power_state)) [
  | inl up ↦ rw (e, power_on, power_on_node, up) refl
  | inr down ↦
      let (same, listed) = get_node-contains f.nodes node_id e in
      rw
        (
          e,
          power_on,
          power_on_node,
          down,
          sent,
          store_node-eq-replace (set_target f (call_up node_id)) (woken now node) (rw same listed),
        )
        refl
]

-- All outcomes of `power_off`. The node is found shut in the state after `reported` too: there
-- `SetNodePowerTarget` failed, and the chain says that the node goes down all the same.
pub data PowersOff (sub : Substrate) (now node_id : ℕ) (f : State)
    : Option Error × State → Type 0 where
  missing : {e : Error} → get_node f.nodes node_id ≡ none → PowersOff sub now node_id f (some e, f)
  already :
      {node : Node}
      → get_node f.nodes node_id ≡ some node
      → is_down node.power_state ≡ true
      → PowersOff sub now node_id f (none, f)
  guarded :
      (node : Node) (e : Error)
      → get_node f.nodes node_id ≡ some node
      → power_off_refusal now f node ≡ some e
      → PowersOff sub now node_id f (some e, f)
  refused :
      (node : Node) {e : Error}
      → get_node f.nodes node_id ≡ some node
      → is_down node.power_state ≡ false
      → power_off_refusal now f node ≡ none
      → PowersOff sub now node_id f (some e, set_target f (call_down node_id))
  shuts :
      (node : Node) (failed : Option Error)
      → get_node f.nodes node_id ≡ some node
      → is_down node.power_state ≡ false
      → power_off_refusal now f node ≡ none
      → PowersOff sub now node_id f (
        failed,
        record f { nodes = replace f.nodes (shut now node); calls = call_down node_id ∷ f.calls },
      )

module _ (sub : Substrate) (now node_id : ℕ) (f : State) (node : Node)
    (found : get_node f.nodes node_id ≡ some node) (running : is_down node.power_state ≡ false)
    (allowed : power_off_refusal now f node ≡ none) where
  stores_shut : store_node (set_target f (call_down node_id)) (shut now node) ≡ (
    none,
    record f { nodes = replace f.nodes (shut now node); calls = call_down node_id ∷ f.calls },
  )
  stores_shut =
      let (same, listed) = get_node-contains f.nodes node_id found in
      store_node-eq-replace (set_target f (call_down node_id)) (shut now node) (rw same listed)

  power_off_failed-PowersOff :
      (e : ChainError)
      → PowersOff sub now node_id f
          (power_off_failed sub now node_id e (set_target f (call_down node_id)) node)
  unfolding power_off_failed
  power_off_failed-PowersOff e =
      elim (Result-cases (sub.get_power_target (call_down node_id ∷ f.calls) node_id)) [
        | inr (x, silent) ↦ rw (silent, power_off_failed) (refused node found running allowed)
        | inl (target, answer) ↦ elim (Bool-cases (target.state_is_down || target.target_is_down)) [
          | inl down ↦
              rw (answer, power_off_failed, down, stores_shut, stores_shut)
                (shuts node _ found running allowed)
          | inr up ↦ rw (answer, power_off_failed, up) (refused node found running allowed)
        ]
      ]

  power_off_node-PowersOff : PowersOff sub now node_id f (power_off_node sub now node_id f node)
  unfolding power_off_node
  power_off_node-PowersOff = elim (Option-cases (sub.set_node_power_target f.calls node_id false)) [
    | inl sent ↦ rw (sent, power_off_node, stores_shut) (shuts node none found running allowed)
    | inr (e, failed) ↦ rw (failed, power_off_node) (power_off_failed-PowersOff e)
  ]

-- Every call of `power_off` is one of the five.
pub power_off-PowersOff :
    (sub : Substrate) (now node_id : ℕ) (f : State)
    → PowersOff sub now node_id f (power_off sub now node_id f)
unfolding power_off
power_off-PowersOff sub now node_id f = elim (Option-cases (get_node f.nodes node_id)) [
  | inl e ↦ rw (e, power_off) (missing e)
  | inr (node, e) ↦ elim (Bool-cases (is_down node.power_state)) [
    | inl down ↦ rw (e, power_off, down) (already e down)
    | inr running ↦ elim (Option-cases (power_off_refusal now f node)) [
      | inr (x, refusal) ↦ rw (e, power_off, running, refusal) (guarded node x e refusal)
      | inl allowed ↦
          rw (e, power_off, running, allowed)
            (power_off_node-PowersOff sub now node_id f node e running allowed)
    ]
  ]
]
