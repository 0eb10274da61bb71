-- ===== src/Farmerbot/Manage.antt =====
-- farmerbot/internal/power.go: `manageNodesPower` and what it calls.
pub mod Select
pub mod Selected
pub mod Shrink
pub mod Usage
use tfgrid_sdk_go.Prelude.{
  ℕ, ◌+◌, ◌-◌, ◌%◌, ◌≤◌, Bool, true, false, not, ◌||◌, ◌&&◌, List, [], ◌∷◌, ◌++◌, Option, none,
  some, Result, ok, err, ltb, leb, ◌==◌, length, if◌then◌else◌,
}
use tfgrid_sdk_go.Farmerbot.Capacity.{
  Capacity, empty, is_empty, add, subtract_or_zero, subtract, u64_mod,
}
use tfgrid_sdk_go.Farmerbot.Env.{Substrate, FloatOps, Float64}
use tfgrid_sdk_go.Farmerbot.Node.{
  PowerState, on, waking_up, off, shutting_down, state_eq, Node, can_shut_down,
}
use tfgrid_sdk_go.Farmerbot.State.{
  Thresholds, State, Error, demand_unmet, filter_nodes_power, filter_allowed_nodes_to_shut_down,
}
use tfgrid_sdk_go.Farmerbot.Power.{power_on, power_off}

-- `float64(used)/float64(total)*100`
usage : FloatOps → ℕ → ℕ → Float64
usage fl used total =
    fl.float_mul (fl.float_div (fl.of_uint64 used) (fl.of_uint64 total)) (fl.of_uint64 100)

-- The demand for one resource: what is used beyond the threshold's share of the total.
unfoldable pub demand_of : FloatOps → ℕ → ℕ → Float64 → ℕ
unfolding usage
demand_of fl total used threshold =
    if fl.float_lt threshold (usage fl used total)
    then fl.to_uint64 (
        fl.ceil (
          fl.float_mul
            (fl.float_div (fl.float_sub (usage fl used total) threshold) (fl.of_uint64 100))
            (fl.of_uint64 total)))
    else 0

unfoldable pub calculate_demand : FloatOps → Capacity → Capacity → Thresholds → Capacity
unfolding demand_of
calculate_demand fl total used t = record {
  hru = if ltb 0 total.hru then demand_of fl total.hru used.hru t.hru_threshold else 0;
  sru = demand_of fl total.sru used.sru t.sru_threshold;
  cru = demand_of fl total.cru used.cru t.cru_threshold;
  mru = demand_of fl total.mru used.mru t.mru_threshold;
}

-- The loop of `calculateResourceUsage`, on the used and the total resources so far.
unfoldable pub resource_usage_from : Capacity → Capacity → List Node → Capacity × Capacity
unfolding add
resource_usage_from used total [] = (used, total)
resource_usage_from used total (n ∷ ns) =
    resource_usage_from (if n.has_active_rent_contract then add used n.total else add used n.used)
      (add total n.total) ns

unfoldable pub calculate_resource_usage : List Node → Capacity × Capacity
unfolding resource_usage_from
calculate_resource_usage = resource_usage_from empty empty

-- Whether the node covers all that remains of one demand, and what then remains.
abbrev pub covers : ℕ → ℕ → Bool
covers has remaining = ltb 0 remaining && leb remaining has

unfoldable pub remaining_after : ℕ → ℕ → ℕ
unfolding subtract_or_zero
remaining_after has remaining =
    if covers has remaining then subtract_or_zero remaining has else remaining

unfoldable pub contributes : Node → Capacity → Bool
contributes n d =
    covers n.chain_cru d.cru
    || covers n.chain_sru d.sru
    || covers n.chain_mru d.mru
    || covers n.chain_hru d.hru

unfoldable pub demand_after : Node → Capacity → Capacity
unfolding remaining_after
demand_after n d = record {
  hru = remaining_after n.chain_hru d.hru;
  sru = remaining_after n.chain_sru d.sru;
  cru = remaining_after n.chain_cru d.cru;
  mru = remaining_after n.chain_mru d.mru;
}

unfoldable pub is_met : Capacity → Bool
is_met d = d.cru == 0 && d.sru == 0 && d.mru == 0 && d.hru == 0

-- One round of the loop of `selectNodesToPowerOn`; `more` is the loop on the nodes that follow. It
-- gives the selected nodes and the demand that remains.
unfoldable pub select_round :
    Node → Capacity → (Capacity → List Node × Capacity) → List Node × Capacity
select_round n demand more =
    if not (state_eq n.power_state off)
    then more demand
    else (let left = demand_after n demand in
        let rest = if is_met left then ([], left) else more left in
        (if contributes n demand then n ∷ rest.0 else rest.0, rest.1))

unfoldable pub select_from : List Node → Capacity → List Node × Capacity
select_from [] demand = ([], demand)
select_from (n ∷ ns) demand = select_round n demand (select_from ns)

unfoldable pub select_nodes_to_power_on : List Node → Capacity → Result Error (List Node)
select_nodes_to_power_on ns demand =
    let (selected, left) = select_from ns demand in
    if ltb 0 left.cru || ltb 0 left.sru || ltb 0 left.mru || ltb 0 left.hru
    then err demand_unmet
    else ok selected

-- An error of one `powerOn` is logged, and the loop goes on.
unfoldable pub power_on_all : Substrate → ℕ → List Node → State → State
power_on_all sub now [] f = f
power_on_all sub now (n ∷ ns) f = power_on_all sub now ns (power_on sub now n.id f).1

unfoldable pub resource_usage_too_high : Substrate → ℕ → Capacity → State → Option Error × State
unfolding power_on_all
resource_usage_too_high sub now demand f = elim (select_nodes_to_power_on f.nodes demand) [
  | err e ↦ (some e, f)
  | ok ns ↦ (none, power_on_all sub now ns f)
]

abbrev sub_u64 : ℕ → ℕ → ℕ
sub_u64 a b = (a + u64_mod - b) % u64_mod

-- The differences are uint64 and wrap.
unfoldable pub check_resources_meet_demand : Capacity → Capacity → Capacity → Bool
check_resources_meet_demand total used demand =
    leb demand.cru (sub_u64 total.cru used.cru)
    && leb demand.sru (sub_u64 total.sru used.sru)
    && leb demand.mru (sub_u64 total.mru used.mru)
    && leb demand.hru (sub_u64 total.hru used.hru)

-- The variables of the loop in `resourceUsageTooLow`.
pub record Budget : Type 0 where
  pub new_used : Capacity
  pub new_total : Capacity
  pub left_online : ℕ

unfoldable pub budget_without : Node → Budget → Budget
unfolding subtract
budget_without n b = record {
  new_used = subtract b.new_used n.used;
  new_total = subtract b.new_total n.total;
  left_online = b.left_online - 1;
}

-- The rest of one round, once the node is taken from the budget: `b` before and `c` after.
unfoldable pub shut_down_round :
    FloatOps → Substrate → ℕ → Thresholds → Node → Budget → Budget → State → Budget × State
unfolding check_resources_meet_demand calculate_demand
shut_down_round fl sub now t node b c f =
    let demand = calculate_demand fl c.new_total c.new_used t in
    if check_resources_meet_demand c.new_total c.new_used demand
    then (let (failed, g) = power_off sub now node.id f in
        elim failed [
          | none ↦ (c, g)
          | some e ↦ if state_eq node.power_state shutting_down then (c, g) else (b, g)
        ])
    else (c, f)

unfoldable pub shut_down_loop :
    FloatOps → Substrate → ℕ → Thresholds → List Node → Budget → State → State
unfolding budget_without shut_down_round is_empty
shut_down_loop fl sub now t [] b f = f
shut_down_loop fl sub now t (n ∷ ns) b f =
    let c = budget_without n b in
    let (b', g) = shut_down_round fl sub now t n b c f in
    let rest = shut_down_loop fl sub now t ns b' g in
    if b.left_online == 1 then f else if is_empty c.new_total then f else rest

unfoldable pub resource_usage_too_low :
    FloatOps → Substrate → ℕ → Capacity → Capacity → State → State
unfolding shut_down_loop
resource_usage_too_low fl sub now used total f =
    if leb on_nodes 1
    then f
    else if length allowed == 0
    then f
    else shut_down_loop fl sub now f.config.power.wake_up_threshold allowed
        (record { new_used = used; new_total = total; left_online = on_nodes }) f
  where
    on_nodes : ℕ
    on_nodes = length (filter_nodes_power (on ∷ []) f.nodes)

    allowed : List Node
    allowed = filter_allowed_nodes_to_shut_down now f.nodes

unfoldable pub manage_nodes_power : FloatOps → Substrate → ℕ → State → Option Error × State
unfolding calculate_resource_usage calculate_demand resource_usage_too_high resource_usage_too_low
manage_nodes_power fl sub now f =
    let (used, total) =
      calculate_resource_usage (filter_nodes_power (on ∷ waking_up ∷ []) f.nodes) in
    let demand = calculate_demand fl total used f.config.power.wake_up_threshold in
    if ltb 0 demand.cru || ltb 0 demand.mru || ltb 0 demand.sru || ltb 0 demand.hru
    then resource_usage_too_high sub now demand f
    else (none, resource_usage_too_low fl sub now used total f)
