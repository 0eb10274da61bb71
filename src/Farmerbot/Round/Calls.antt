-- ===== src/Farmerbot/Round/Calls.antt =====
-- How many nodes one round of `iterateOnNodes` wakes up (farmerbot/internal/farmerbot.go).
use tfgrid_sdk_go.Prelude.{
  ℕ, ◌+◌, ◌%◌, ◌≤◌, ◌<◌, ◌≡◌, refl, subst, ◌∙◌, inl, inr, Bool, true, false, List, [], ◌∷◌, Option,
  none, some, Result, ok, err, ◌>>=◌, arith, length, Bool-cases, Option-cases, Result-cases,
  contains,
}
use tfgrid_sdk_go.Farmerbot.Env.{Substrate, Rmb}
use tfgrid_sdk_go.Farmerbot.Node.{off, state_eq_iff, Node}
use tfgrid_sdk_go.Farmerbot.State.{Config, PowerConfig, State, Error, get_node}
use tfgrid_sdk_go.Farmerbot.Power.{store_node, power_on}
use tfgrid_sdk_go.Farmerbot.Power.Switch.{PowersOn, power_on-PowersOn, store_node-config}
use tfgrid_sdk_go.Farmerbot.Refresh.{update, add_or_update_node}
use tfgrid_sdk_go.Farmerbot.Setup.{is_managed}
use tfgrid_sdk_go.Farmerbot.Round.{
  World, should_wake_up, get_or_zero, is_reset_time, keep_up, wake_up_round, node_round, nodes_loop,
}

-- A wake up is called for a node that is off, while the limit of the round is not reached.
pub should_wake_up-guards :
    (w : World) (p : PowerConfig) (nodes_len start now calls : ℕ) (n m : Node)
    → should_wake_up w p nodes_len start now calls n ≡ ok (true, m)
    → (n.power_state ≡ off) × (calls < p.periodic_wake_up_limit)
unfolding should_wake_up
should_wake_up-guards w p nodes_len start now calls n m h =
    (state_eq_iff n.power_state off (ground arith), ground arith)

power_on-config :
    (sub : Substrate) (now k : ℕ) (f : State) → (power_on sub now k f).1.config ≡ f.config
power_on-config sub now k f = go (power_on-PowersOn sub now k f)
  where
    go : {r : Option Error × State} → PowersOn sub now k f r → r.1.config ≡ f.config
    go (PowersOn.missing e) = refl
    go (PowersOn.already e d) = refl
    go (PowersOn.refused e d x) = refl
    go (PowersOn.wakes node e d s) = refl

pub add_or_update_node-config :
    (sub : Substrate) (rmb : Rmb) (now k : ℕ) (f : State)
    → (add_or_update_node sub rmb now k f).1.config ≡ f.config
unfolding add_or_update_node
add_or_update_node-config sub rmb now k f = elim (Option-cases (get_node f.nodes k)) [
  | inl absent ↦ rw (absent, add_or_update_node) (ground arith)
  | inr (old, found) ↦
      rw (found, add_or_update_node)
        (ground (
          arith,
          store_node-config f
              (update sub rmb f.calls now (contains f.config.never_shut_down_nodes k)
                f.farm.dedicated_farm f.config.continue_on_powering_on_err old).1,
        ))
]

pub keep_up-config :
    (sub : Substrate) (now k : ℕ) (n : Node) (f : State) → (keep_up sub now k n f).config ≡ f.config
unfolding keep_up
keep_up-config sub now k n f = ground (arith, power_on-config sub now k f)

-- What every step of a round keeps: the configuration, and the number of calls below the limit.
abbrev pub Bounded : Config → Result Error (State × ℕ) → Type 0
Bounded c (ok s) = (s.0.config ≡ c) × (s.1 ≤ c.power.periodic_wake_up_limit)
Bounded c (err e) = Unit

bind-Bounded :
    (c : Config) (r : Result Error (State × ℕ)) (f : State × ℕ → Result Error (State × ℕ))
    → Bounded c r
    → ((s : State × ℕ) → Bounded c (ok s) → Bounded c (f s))
    → Bounded c (r >>= f)
bind-Bounded c (ok s) f b h = h s b
bind-Bounded c (err e) f b h = tt

module _ (w : World) (sub : Substrate) (c : Config)
    (byte : c.power.periodic_wake_up_limit < 256) where
  -- The call for a node that should wake up.
  called-Bounded :
      (now k calls : ℕ) (g : State)
      → g.config ≡ c
      → calls < c.power.periodic_wake_up_limit
      → let (failed, h) = power_on sub now k g in
        Bounded c (ok (elim failed [ some e ↦ (h, calls) | none ↦ (h, (calls + 1) % 256) ]))
  called-Bounded now k calls g same below = elim (Option-cases (power_on sub now k g).0) [
    | inl sent ↦ rw sent (power_on-config sub now k g ∙ same, omega arith)
    | inr (e, failed) ↦ rw failed (power_on-config sub now k g ∙ same, omega arith)
  ]

  wake_up_round-Bounded :
      (start now k : ℕ) (n : Node) (f : State) (calls : ℕ)
      → f.config ≡ c
      → calls ≤ c.power.periodic_wake_up_limit
      → Bounded c (wake_up_round w sub start now k n (f, calls))
  unfolding wake_up_round
  wake_up_round-Bounded start now k n f calls same le = elim (Result-cases wakes) [
    | inr (e, failed) ↦ rw (failed, wake_up_round) tt
    | inl ((false, m), e) ↦ rw (e, wake_up_round) (same, le)
    | inl ((true, m), e) ↦
        rw (e, wake_up_round)
          (called-Bounded now k calls (store_node f m).1 (store_node-config f m ∙ same) (
            subst (λ d. calls < d.power.periodic_wake_up_limit) same
              (should_wake_up-guards w f.config.power _ start now calls n m e).1))
  ]
    where
      wakes : Result Error (Bool × Node)
      wakes = should_wake_up w f.config.power (length f.nodes) start now calls n

  pub node_round-Bounded :
      (rmb : Rmb) (start now k : ℕ) (s : State × ℕ)
      → Bounded c (ok s)
      → Bounded c (node_round w sub rmb start now k s)
  unfolding node_round
  node_round-Bounded rmb start now k (f, calls) (same, le) =
      elim (Bool-cases (is_managed f.config k)) [
        | inr out ↦ rw (out, node_round) (same, le)
        | inl managed ↦ elim (Bool-cases (is_reset_time w start)) [
          | inl first ↦
              rw (managed, node_round, first)
                (wake_up_round-Bounded start now k reset (store_node h reset).1 calls
                  (store_node-config h reset ∙ kept) le)
          | inr later ↦
              rw (managed, node_round, later)
                (wake_up_round-Bounded start now k node h calls kept le)
        ]
      ]
    where
      g : State
      g = (add_or_update_node sub rmb now k f).1

      node : Node
      node = get_or_zero g.nodes k

      reset : Node
      reset = record node { times_random_wake_ups = 0 }

      h : State
      h = keep_up sub now k node g

      kept : h.config ≡ c
      kept = keep_up-config sub now k node g ∙ add_or_update_node-config sub rmb now k f ∙ same

  nodes_loop-Bounded :
      (rmb : Rmb) (start now : ℕ) (ks : List ℕ) (s : State × ℕ)
      → Bounded c (ok s)
      → Bounded c (nodes_loop w sub rmb start now ks s)
  unfolding nodes_loop
  nodes_loop-Bounded rmb start now [] s b = b
  nodes_loop-Bounded rmb start now (k ∷ ks) s b =
      bind-Bounded c (node_round w sub rmb start now k s) (nodes_loop w sub rmb start now ks)
        (node_round-Bounded rmb start now k s b) (λ t b'. nodes_loop-Bounded rmb start now ks t b')

-- Where the limit is below 256: a loop that starts with no wake up calls and ends without a panic has
-- made no more of them than the configuration allows, and leaves the configuration as it is.
pub nodes_loop-wake_up_calls :
    (w : World) (sub : Substrate) (rmb : Rmb) (start now : ℕ) (ks : List ℕ) (f g : State)
    (calls : ℕ)
    → f.config.power.periodic_wake_up_limit < 256
    → nodes_loop w sub rmb start now ks (f, 0) ≡ ok (g, calls)
    → (g.config ≡ f.config) × (calls ≤ f.config.power.periodic_wake_up_limit)
nodes_loop-wake_up_calls w sub rmb start now ks f g calls byte h =
    subst (Bounded f.config) h
      (nodes_loop-Bounded w sub f.config byte rmb start now ks (f, 0) (refl, omega arith))
