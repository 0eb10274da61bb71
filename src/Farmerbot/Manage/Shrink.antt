-- ===== src/Farmerbot/Manage/Shrink.antt =====
-- What a round of power management in farmerbot/internal/power.go may take down: the calls that it
-- makes, and that a node stays on.
use tfgrid_sdk_go.Prelude.{
  ℕ, ◌+◌, ◌≤◌, ◌≡◌, inl, inr, true, false, List, [], ◌∷◌, Option, arith, All, IsIn, All-IsIn,
  All-map, keep-All_of, if_intro, Bool-cases, Option-cases, Result-cases,
}
use tfgrid_sdk_go.Farmerbot.Capacity.{Capacity}
use tfgrid_sdk_go.Farmerbot.Env.{Substrate, FloatOps, TargetCall}
use tfgrid_sdk_go.Farmerbot.Node.{
  PowerState, on, state_eq, Node, can_shut_down, periodic_wake_up_duration,
}
use tfgrid_sdk_go.Farmerbot.State.{Thresholds, State, Error, filter_allowed_nodes_to_shut_down}
use tfgrid_sdk_go.Farmerbot.State.Lookup.{count_on, count_on-replace_ne, get_node-contains}
use tfgrid_sdk_go.Farmerbot.Power.{call_down, woken, power_on, power_off}
use tfgrid_sdk_go.Farmerbot.Power.Switch.{PowersOn, power_on-PowersOn}
use tfgrid_sdk_go.Farmerbot.Power.Guards.{power_off_calls, power_off_keeps_on, Within}
use tfgrid_sdk_go.Farmerbot.Manage.{
  Budget, budget_without, shut_down_round, shut_down_loop, resource_usage_too_low,
  resource_usage_too_high, power_on_all, select_nodes_to_power_on, calculate_demand,
  check_resources_meet_demand, manage_nodes_power,
}

module _ {κ λ'} (fl : FloatOps) (sub : Substrate) (now : ℕ) (t : Thresholds) (Q : Node → Type λ')
    (P : State → Type κ)
    (off_keeps : (n : Node) (f : State) → Q n → P f → P (power_off sub now n.id f).1) where
  round_keeps :
      (n : Node) (b c : Budget) (f : State) → Q n → P f → P (shut_down_round fl sub now t n b c f).1
  unfolding shut_down_round
  round_keeps n b c f q h =
      elim (Bool-cases (
        check_resources_meet_demand c.new_total c.new_used
          (calculate_demand fl c.new_total c.new_used t))) [
            | inr unmet ↦ rw unmet h
            | inl meets ↦ elim (Option-cases (power_off sub now n.id f).0) [
              | inl done ↦ rw (meets, done) (off_keeps n f q h)
              | inr (e, failed) ↦
                  elim (Bool-cases (state_eq n.power_state PowerState.shutting_down)) [
                    | inl going ↦ rw (meets, failed, going) (off_keeps n f q h)
                    | inr staying ↦ rw (meets, failed, staying) (off_keeps n f q h)
                  ]
            ]
          ]

  -- What every `power_off` of one of the nodes keeps, the loop keeps.
  pub loop_keeps :
      (ns : List Node) (b : Budget) (f : State)
      → All Q ns
      → P f
      → P (shut_down_loop fl sub now t ns b f)
  unfolding shut_down_loop
  loop_keeps [] b f q h = h
  loop_keeps (n ∷ ns) b f q h =
      if_intro P _ h
        (if_intro P _ h (loop_keeps ns _ _ q.1 (round_keeps n b (budget_without n b) f q.0 h)))

too_low_keeps {κ λ'} :
    (fl : FloatOps) (sub : Substrate) (now : ℕ) (Q : Node → Type λ') (P : State → Type κ)
    → ((n : Node) (f : State) → Q n → P f → P (power_off sub now n.id f).1)
    → (used total : Capacity) (f : State) → All Q (filter_allowed_nodes_to_shut_down now f.nodes)
    → P f
    → P (resource_usage_too_low fl sub now used total f)
unfolding resource_usage_too_low
too_low_keeps fl sub now Q P keeps used total f q h =
    if_intro P _ h
      (if_intro P _ h (loop_keeps fl sub now f.config.power.wake_up_threshold Q P keeps _ _ f q h))

-- A node that the loop of `resourceUsageTooLow` may send down.
pub record IsSpare (now : ℕ) (n : Node) : Type 0 where
  pub is_on : n.power_state ≡ on
  pub spare_idle : Within n.used n.system
  pub spare_not_public : n.has_public_config ≡ false
  pub spare_not_pinned : n.never_shut_down ≡ false
  pub spare_not_rented : n.has_active_rent_contract ≡ false
  pub spare_not_contracted : n.has_active_contracts ≡ false
  pub spare_not_claimed : n.timeout_claimed_resources ≤ now
  pub spare_settled : n.last_time_power_state_changed + periodic_wake_up_duration ≤ now

pub can_shut_down-IsSpare : (now : ℕ) (n : Node) → can_shut_down now n ≡ true → IsSpare now n
unfolding can_shut_down
can_shut_down-IsSpare now n h = ground arith

-- The calls that a part of a round adds are all for spare nodes of the farm, to take them down.
pub data TakesDown (now : ℕ) (ns : List Node) : List TargetCall → List TargetCall → Type 0 where
  nothing : {cs : List TargetCall} → TakesDown now ns cs cs
  one_more :
      {cs ds : List TargetCall} (n : Node)
      → IsIn n ns
      → IsSpare now n
      → TakesDown now ns cs ds
      → TakesDown now ns cs (call_down n.id ∷ ds)

abbrev IsAllowed : ℕ → List Node → Node → Type 0
IsAllowed now ns n = IsIn n ns × IsSpare now n

shut_down_nodes-IsAllowed :
    (now : ℕ) (ns : List Node) → All (IsAllowed now ns) (filter_allowed_nodes_to_shut_down now ns)
unfolding filter_allowed_nodes_to_shut_down
shut_down_nodes-IsAllowed now ns =
    All-map _ (λ n h. (h.0, can_shut_down-IsSpare now n h.1))
      (keep-All_of (λ n. IsIn n ns) (can_shut_down now) ns (All-IsIn ns))

power_off-TakesDown :
    (sub : Substrate) (now : ℕ) (ns : List Node) (cs : List TargetCall) (n : Node) (f : State)
    → IsAllowed now ns n
    → TakesDown now ns cs f.calls
    → TakesDown now ns cs (power_off sub now n.id f).1.calls
power_off-TakesDown sub now ns cs n f q h = elim (power_off_calls sub now n.id f) [
  | inl same ↦ rw same h
  | inr (node, found, may, sent) ↦ rw sent (one_more n q.0 q.1 h)
]

-- Every call to the chain that `resource_usage_too_low` adds takes down a node of the farm that is on,
-- idle, not public, not pinned, not rented, not contracted, not claimed, and in its power state for
-- half an hour.
pub resource_usage_too_low_calls :
    (fl : FloatOps) (sub : Substrate) (now : ℕ) (used total : Capacity) (f : State)
    → TakesDown now f.nodes f.calls (resource_usage_too_low fl sub now used total f).calls
resource_usage_too_low_calls fl sub now used total f =
    too_low_keeps fl sub now (IsAllowed now f.nodes) (λ g. TakesDown now f.nodes f.calls g.calls)
      (λ n g q h. power_off-TakesDown sub now f.nodes f.calls n g q h) used total f
      (shut_down_nodes-IsAllowed now f.nodes) nothing

abbrev HasOn : State → Type 0
HasOn f = 1 ≤ count_on f.nodes

resource_usage_too_low-HasOn :
    (fl : FloatOps) (sub : Substrate) (now : ℕ) (used total : Capacity) (f : State)
    → HasOn f
    → HasOn (resource_usage_too_low fl sub now used total f)
resource_usage_too_low-HasOn fl sub now used total f one =
    too_low_keeps fl sub now (IsAllowed now f.nodes) HasOn
      (λ n g q h. power_off_keeps_on sub now n.id g h) used total f
      (shut_down_nodes-IsAllowed now f.nodes) one

-- No `power_on` takes a node from those that are on.
pub power_on-count_on :
    (sub : Substrate) (now node_id : ℕ) (f : State)
    → count_on f.nodes ≤ count_on (power_on sub now node_id f).1.nodes
power_on-count_on sub now node_id f = go (power_on-PowersOn sub now node_id f)
  where
    go :
        {r : Option Error × State}
        → PowersOn sub now node_id f r
        → count_on f.nodes ≤ count_on r.1.nodes
    go (PowersOn.missing e) = omega arith
    go (PowersOn.already e d) = omega arith
    go (PowersOn.refused e d x) = omega arith
    go (PowersOn.wakes node e d s) =
        count_on-replace_ne f.nodes (woken now node) {old = node}
          (simp ((get_node-contains f.nodes node_id e).0) e) (ground arith)

power_on_all-HasOn :
    (sub : Substrate) (now : ℕ) (ns : List Node) (f : State)
    → HasOn f
    → HasOn (power_on_all sub now ns f)
unfolding power_on_all
power_on_all-HasOn sub now [] f one = one
power_on_all-HasOn sub now (n ∷ ns) f one =
    power_on_all-HasOn sub now ns (power_on sub now n.id f).1
      (omega (arith, power_on-count_on sub now n.id f))

resource_usage_too_high-HasOn :
    (sub : Substrate) (now : ℕ) (d : Capacity) (f : State)
    → HasOn f
    → HasOn (resource_usage_too_high sub now d f).1
unfolding resource_usage_too_high
resource_usage_too_high-HasOn sub now d f one =
    elim (Result-cases (select_nodes_to_power_on f.nodes d)) [
      | inl (ns, e) ↦ rw (e, resource_usage_too_high) (power_on_all-HasOn sub now ns f one)
      | inr (x, e) ↦ rw (e, resource_usage_too_high) one
    ]

manage_keeps {κ} :
    (P : State → Type κ) (fl : FloatOps) (sub : Substrate) (now : ℕ) (f : State)
    → ((d : Capacity) → P (resource_usage_too_high sub now d f).1)
    → ((used total : Capacity) → P (resource_usage_too_low fl sub now used total f))
    → P (manage_nodes_power fl sub now f).1
unfolding manage_nodes_power
manage_keeps P fl sub now f high low =
    if_intro {A = Option Error × State} (λ r. P r.1) _ (high _) (low _ _)

-- If a node of the farm is on, a node is on after power management, whatever the chain answers.
pub manage_nodes_power_keeps_on :
    (fl : FloatOps) (sub : Substrate) (now : ℕ) (f : State)
    → 1 ≤ count_on f.nodes
    → 1 ≤ count_on (manage_nodes_power fl sub now f).1.nodes
manage_nodes_power_keeps_on fl sub now f one =
    manage_keeps HasOn fl sub now f (λ d. resource_usage_too_high-HasOn sub now d f one)
      (λ used total. resource_usage_too_low-HasOn fl sub now used total f one)
