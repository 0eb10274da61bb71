-- ===== src/Farmerbot/Round/Accepted.antt =====
-- How many nodes one round of `iterateOnNodes` has powered on by the chain's own account
-- (farmerbot/internal/farmerbot.go).
use tfgrid_sdk_go.Prelude.{
  ℕ, suc, ◌+◌, ◌-◌, ◌%◌, ◌≤◌, ◌<◌, ◌≡◌, refl, sym, ap, ◌∙◌, subst, inl, inr, Bool, true, false,
  ◌&&◌, ◌||◌, List, [], ◌∷◌, Option, none, some, Result, ok, err, ok_inj, arith, length, Bool-cases,
  Option-cases, Result-cases, contains, if◌then◌else◌,
}
use tfgrid_sdk_go.Farmerbot.Env.{ChainError, TargetCall, Substrate, Rmb}
use tfgrid_sdk_go.Farmerbot.Node.{off, state_eq, Node}
use tfgrid_sdk_go.Farmerbot.State.{Config, State, Error, get_node}
use tfgrid_sdk_go.Farmerbot.Power.{store_node, power_on}
use tfgrid_sdk_go.Farmerbot.Power.Switch.{store_node-config, PowersOn, power_on-PowersOn}
use tfgrid_sdk_go.Farmerbot.Refresh.{update, add_or_update_node}
use tfgrid_sdk_go.Farmerbot.Setup.{is_managed}
use tfgrid_sdk_go.Farmerbot.Round.{
  World, should_wake_up, get_or_zero, is_reset_time, keep_up, wake_up_round, node_round, nodes_loop,
}
use tfgrid_sdk_go.Farmerbot.Round.Calls.{
  Bounded, node_round-Bounded, add_or_update_node-config, keep_up-config, should_wake_up-guards,
  nodes_loop-wake_up_calls,
}

abbrev pub is_accepted : Option ChainError → Bool
is_accepted none = true
is_accepted (some e) = false

-- The calls of the record that set the power target up and that the chain accepted.
unfoldable pub powered_on : Substrate → List TargetCall → ℕ
powered_on sub [] = 0
powered_on sub (c ∷ cs) =
    let rest = powered_on sub cs in
    if c.up && is_accepted (sub.set_node_power_target cs c.node_id true) then suc rest else rest

abbrev one_if_none : Option Error → ℕ
one_if_none none = 1
one_if_none (some e) = 0

-- `powerOn` powers one node on at most, and none where it fails.
power_on_once :
    (sub : Substrate) (now k : ℕ) (f : State)
    → powered_on sub (power_on sub now k f).1.calls
      ≤ powered_on sub f.calls + one_if_none (power_on sub now k f).0
unfolding powered_on
power_on_once sub now k f = go (power_on-PowersOn sub now k f)
  where
    go :
        {r : Option Error × State}
        → PowersOn sub now k f r
        → powered_on sub r.1.calls ≤ powered_on sub f.calls + one_if_none r.0
    go (PowersOn.missing e) = omega arith
    go (PowersOn.already e d) = omega arith
    go (PowersOn.refused e d x) = ground (arith, x)
    go (PowersOn.wakes node e d s) = ground (arith, s)

store_node-calls : (f : State) (node : Node) → (store_node f node).1.calls ≡ f.calls
unfolding store_node
store_node-calls f node = ground arith

add_or_update_node-calls :
    (sub : Substrate) (rmb : Rmb) (now k : ℕ) (f : State)
    → (add_or_update_node sub rmb now k f).1.calls ≡ f.calls
unfolding add_or_update_node
add_or_update_node-calls sub rmb now k f = elim (Option-cases (get_node f.nodes k)) [
  | inl absent ↦ rw (absent, add_or_update_node) (ground arith)
  | inr (old, found) ↦
      rw (found, add_or_update_node)
        (ground (
          arith,
          store_node-calls f
              (update sub rmb f.calls now (contains f.config.never_shut_down_nodes k)
                f.farm.dedicated_farm f.config.continue_on_powering_on_err old).1,
        ))
]

module _ (w : World) (sub : Substrate) (rmb : Rmb) (start now : ℕ) where
  -- What the round of a node powers on because the node is off and must not stay so.
  unfoldable pub kept_up_at : ℕ → State → ℕ
  kept_up_at k f =
      let g = (add_or_update_node sub rmb now k f).1 in
      let node = get_or_zero g.nodes k in
      if is_managed f.config k
        && state_eq node.power_state off
        && (node.never_shut_down || node.has_active_rent_contract)
      then powered_on sub (power_on sub now k g).1.calls - powered_on sub g.calls
      else 0

  -- The same for the loop, whose rounds follow one another.
  unfoldable pub kept_up : List ℕ → State × ℕ → ℕ
  kept_up [] s = 0
  kept_up (k ∷ ks) s = elim (node_round w sub rmb start now k s) [
    | err e ↦ kept_up_at k s.0
    | ok s' ↦ kept_up_at k s.0 + kept_up ks s'
  ]

  keep_up-calls :
      (k : ℕ) (f : State)
      → is_managed f.config k ≡ true
      → let g = (add_or_update_node sub rmb now k f).1 in
        powered_on sub (keep_up sub now k (get_or_zero g.nodes k) g).calls
        ≤ powered_on sub f.calls + kept_up_at k f
  unfolding keep_up kept_up_at
  keep_up-calls k f managed =
      let g = (add_or_update_node sub rmb now k f).1 in
      let node = get_or_zero g.nodes k in
      let same : powered_on sub g.calls ≡ powered_on sub f.calls =
        ap (powered_on sub) (add_or_update_node-calls sub rmb now k f) in
      elim (Bool-cases (state_eq node.power_state off)) [
        | inr up ↦ rw (up, keep_up, kept_up_at, managed) (omega (arith, same))
        | inl down ↦ elim (Bool-cases (node.never_shut_down || node.has_active_rent_contract)) [
          | inr free ↦ rw (down, free, keep_up, kept_up_at, managed) (omega (arith, same))
          | inl bound ↦ rw (down, bound, keep_up, kept_up_at, managed) (omega (arith, same))
        ]
      ]

  wake_up_round-calls :
      (k : ℕ) (n : Node) (f : State) (calls : ℕ) {s' : State × ℕ}
      → f.config.power.periodic_wake_up_limit < 256
      → wake_up_round w sub start now k n (f, calls) ≡ ok s'
      → powered_on sub s'.0.calls + calls ≤ powered_on sub f.calls + s'.1
  unfolding wake_up_round
  wake_up_round-calls k n f calls {s'} byte h = elim (Result-cases wakes) [
    | inr (e, failed) ↦ absurd (ground (arith, h, failed))
    | inl ((false, m), e) ↦
        let same : (f, calls) ≡ s' = ground (arith, h, e) in
        subst (λ t. powered_on sub t.0.calls + calls ≤ powered_on sub f.calls + t.1) same
          (omega arith)
    | inl ((true, m), e) ↦
        let g = (store_node f m).1 in
        let stored : powered_on sub g.calls ≡ powered_on sub f.calls =
          ap (powered_on sub) (store_node-calls f m) in
        let once = power_on_once sub now k g in
        let below : calls < 256 = omega (
          arith,
          byte,
          (should_wake_up-guards w f.config.power (length f.nodes) start now calls n m e).1,
        ) in
        elim (Option-cases (power_on sub now k g).0) [
          | inl sent ↦
              let same : ((power_on sub now k g).1, (calls + 1) % 256) ≡ s' =
                ground (arith, h, e, sent) in
              let more : powered_on sub (power_on sub now k g).1.calls
                  ≤ powered_on sub g.calls + 1 =
                ground (arith, once, sent) in
              subst (λ t. powered_on sub t.0.calls + calls ≤ powered_on sub f.calls + t.1) same
                (omega (
                  arith,
                  more,
                  stored,
                  below,
                  (should_wake_up-guards w f.config.power (length f.nodes) start now calls n m e).1,
                ))
          | inr (x, failed) ↦
              let same : ((power_on sub now k g).1, calls) ≡ s' = ground (arith, h, e, failed) in
              let no_more : powered_on sub (power_on sub now k g).1.calls ≤ powered_on sub g.calls =
                ground (arith, once, failed) in
              subst (λ t. powered_on sub t.0.calls + calls ≤ powered_on sub f.calls + t.1) same
                (omega (arith, no_more, stored))
        ]
  ]
    where
      wakes : Result Error (Bool × Node)
      wakes = should_wake_up w f.config.power (length f.nodes) start now calls n

  node_round-calls :
      (k : ℕ) (f : State) (calls : ℕ) {s' : State × ℕ}
      → f.config.power.periodic_wake_up_limit < 256
      → node_round w sub rmb start now k (f, calls) ≡ ok s'
      → powered_on sub s'.0.calls + calls ≤ powered_on sub f.calls + kept_up_at k f + s'.1
  unfolding node_round
  node_round-calls k f calls {s'} byte h = elim (Bool-cases (is_managed f.config k)) [
    | inr out ↦
        let same : (f, calls) ≡ s' = ground (arith, h, out) in
        subst
          (λ t. powered_on sub t.0.calls + calls ≤ powered_on sub f.calls + kept_up_at k f + t.1)
          same (omega arith)
    | inl managed ↦
        let g = (add_or_update_node sub rmb now k f).1 in
        let node = get_or_zero g.nodes k in
        let kept = keep_up sub now k node g in
        let reset : Node = record node { times_random_wake_ups = 0 } in
        let config : kept.config ≡ f.config =
          keep_up-config sub now k node g ∙ add_or_update_node-config sub rmb now k f in
        let byte' : kept.config.power.periodic_wake_up_limit < 256 =
          subst (λ c. c.power.periodic_wake_up_limit < 256) (sym config) byte in
        let before = keep_up-calls k f managed in
        elim (Bool-cases (is_reset_time w start)) [
          | inl first ↦
              let stored : powered_on sub (store_node kept reset).1.calls
                  ≡ powered_on sub kept.calls =
                ap (powered_on sub) (store_node-calls kept reset) in
              let byte'' : (store_node kept reset).1.config.power.periodic_wake_up_limit < 256 =
                subst (λ c. c.power.periodic_wake_up_limit < 256)
                  (sym (store_node-config kept reset)) byte' in
              omega (
                arith,
                before,
                stored,
                wake_up_round-calls k reset (store_node kept reset).1 calls {s' = s'} byte''
                    (rw (managed, first) at h),
              )
          | inr later ↦ omega (
            arith,
            before,
            wake_up_round-calls k node kept calls {s' = s'} byte' (rw (managed, later) at h),
          )
        ]
  ]

  nodes_loop-calls :
      (c : Config) (ks : List ℕ) (s : State × ℕ) {s' : State × ℕ}
      → c.power.periodic_wake_up_limit < 256
      → Bounded c (ok s)
      → nodes_loop w sub rmb start now ks s ≡ ok s'
      → powered_on sub s'.0.calls + s.1 ≤ powered_on sub s.0.calls + kept_up ks s + s'.1
  unfolding nodes_loop kept_up
  nodes_loop-calls c [] s byte b h =
      subst (λ t. powered_on sub t.0.calls + s.1 ≤ powered_on sub s.0.calls + 0 + t.1) (ok_inj h)
        (omega arith)
  nodes_loop-calls c (k ∷ ks) s {s'} byte b h =
      elim (Result-cases (node_round w sub rmb start now k s)) [
        | inr (e, failed) ↦ absurd (ground (arith, h, failed))
        | inl (t, e) ↦
            let after : Bounded c (ok t) =
              subst (Bounded c) e (node_round-Bounded w sub c byte rmb start now k s b) in
            let rest = nodes_loop-calls c ks t {s' = s'} byte after (ground (arith, h, e)) in
            let one =
              node_round-calls k s.0 s.1 {s' = t}
                (subst (λ d. d.power.periodic_wake_up_limit < 256) (sym b.0) byte) e in
            rw (e, kept_up) (omega (arith, one, rest))
      ]

  -- Where the limit is below 256: if the loop over the farm's nodes starts with no wake up calls and
  -- ends without a panic, it has counted no more of them than the configuration allows; and the chain
  -- has accepted no more calls that power a node on than before, that many, and those for the nodes
  -- which the rounds found off and which must never be shut down or are rented. The configuration is
  -- unchanged.
  pub nodes_loop-powered_on :
      (ks : List ℕ) (f g : State) (calls : ℕ)
      → f.config.power.periodic_wake_up_limit < 256
      → nodes_loop w sub rmb start now ks (f, 0) ≡ ok (g, calls)
      → (g.config ≡ f.config)
        × (calls ≤ f.config.power.periodic_wake_up_limit)
        × (powered_on sub g.calls ≤ powered_on sub f.calls + kept_up ks (f, 0) + calls)
  nodes_loop-powered_on ks f g calls byte h =
      let (same, le) = nodes_loop-wake_up_calls w sub rmb start now ks f g calls byte h in
      let b : Bounded f.config (ok (f, 0)) = (refl, omega arith) in
      (same, le, omega (arith, nodes_loop-calls f.config ks (f, 0) {s' = (g, calls)} byte b h))
