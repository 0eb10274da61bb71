-- ===== src/Farmerbot/Setup.antt =====
-- How the farmerbot starts: `newState`, `fetchNodes` and `validate` of farmerbot/internal/state.go,
-- `addPriorityToNodes` of farmerbot.go, and the check of parser/parser.go.
pub mod Parse
pub mod Priority
pub mod Ranges
use tfgrid_sdk_go.Prelude.{
  ℕ, ◌+◌, ◌-◌, ◌*◌, ◌/◌, ◌%◌, Bool, true, false, not, ◌||◌, ◌&&◌, List, [], ◌∷◌, ◌++◌, Option, none,
  some, Result, ok, err, ◌>>=◌, ◌>>◌, ltb, leb, ◌==◌, length, contains, if◌then◌else◌,
}
use tfgrid_sdk_go.Prelude.Int.{ℤ, pos, negsuc, ltb_ℤ}
use tfgrid_sdk_go.Farmerbot.Capacity.{Capacity}
use tfgrid_sdk_go.Farmerbot.Env.{ChainError, Farm, Substrate, Rmb, FloatOps, Float64}
use tfgrid_sdk_go.Farmerbot.Node.{Node, minute, hour}
use tfgrid_sdk_go.Farmerbot.State.{
  Thresholds, PowerConfig, Config, State, Error, chain_error, over_provision_range, unauthorized,
  farm_id_required, too_few_nodes, node_id_required, twin_id_required, total_required,
  threshold_range, included_and_excluded,
}
use tfgrid_sdk_go.Farmerbot.Refresh.{fetch_node}

-- The first loop of `addPriorityToNodes`, on the list built so far.
unfoldable pub add_priority : List ℕ → List ℕ → List ℕ → List ℕ
add_priority [] farm_nodes updated = updated
add_priority (p ∷ ps) farm_nodes updated =
    add_priority ps farm_nodes
      (if contains farm_nodes p && not (contains updated p) then updated ++ p ∷ [] else updated)

-- The second loop.
unfoldable pub add_rest : List ℕ → List ℕ → List ℕ
add_rest [] updated = updated
add_rest (n ∷ ns) updated =
    add_rest ns (if not (contains updated n) then updated ++ n ∷ [] else updated)

unfoldable pub add_priority_to_nodes : List ℕ → List ℕ → List ℕ
add_priority_to_nodes priority_nodes farm_nodes =
    add_rest farm_nodes (add_priority priority_nodes farm_nodes [])

-- Whether the configuration leaves the node to the farmerbot.
unfoldable pub is_managed : Config → ℕ → Bool
is_managed c node_id =
    not (contains c.excluded_nodes node_id)
    && (contains c.included_nodes node_id || length c.included_nodes == 0)

-- The loop of `fetchNodes`.
unfoldable pub fetch_all : Substrate → Rmb → ℕ → Config → Bool → List ℕ → Result Error (List Node)
fetch_all sub rmb now c dedicated_farm [] = ok []
fetch_all sub rmb now c dedicated_farm (k ∷ ks) =
    let rest = fetch_all sub rmb now c dedicated_farm ks in
    if is_managed c k
    then (fetch_node sub rmb [] now k c.continue_on_powering_on_err
          (contains c.never_shut_down_nodes k) dedicated_farm
        >>= λ node. rest >>= λ nodes. ok (node ∷ nodes))
    else rest

abbrev pub wrap : {A : Type 0} → Result ChainError A → Result Error A
wrap (ok a) = ok a
wrap (err e) = err (chain_error e)

unfoldable pub fetch_nodes : Substrate → Rmb → ℕ → Config → Bool → Result Error (List Node)
fetch_nodes sub rmb now c dedicated_farm = do
  farm_nodes ← wrap (sub.get_nodes c.config_farm_id)
  fetch_all sub rmb now c dedicated_farm (add_priority_to_nodes c.priority_nodes farm_nodes)

-- The checks of one node in `validate`.
unfoldable pub validate_node : Node → Option Error
validate_node n =
    if n.id == 0
    then some node_id_required
    else if n.twin_id == 0
    then some twin_id_required
    else if n.total.sru == 0
    then some total_required
    else if n.total.cru == 0
    then some total_required
    else if n.total.mru == 0
    then some total_required
    else none

unfoldable pub validate_nodes : List Node → Option Error
validate_nodes [] = none
validate_nodes (n ∷ ns) =
    let rest = validate_nodes ns in elim (validate_node n) [ some e ↦ some e | none ↦ rest ]

module _ (fl : FloatOps) where
  abbrev default_wake_up_threshold : Float64
  default_wake_up_threshold = fl.of_uint64 80

  abbrev min_wake_up_threshold : Float64
  min_wake_up_threshold = fl.of_uint64 50

  abbrev max_wake_up_threshold : Float64
  max_wake_up_threshold = fl.of_uint64 80

  -- A threshold that was not set, and one outside of the allowed range.
  unfoldable pub default_threshold : Float64 → Float64
  default_threshold x = if fl.float_eq x (fl.of_uint64 0) then default_wake_up_threshold else x

  abbrev pub out_of_range : Float64 → Bool
  out_of_range x = fl.float_lt x (fl.of_uint64 1) || fl.float_lt (fl.of_uint64 100) x

  unfoldable pub clamp_threshold : Float64 → Float64
  clamp_threshold x =
      let y = if fl.float_lt x min_wake_up_threshold then min_wake_up_threshold else x in
      if fl.float_lt max_wake_up_threshold y then max_wake_up_threshold else y

  unfoldable pub validate_thresholds : Thresholds → Result Error Thresholds
  validate_thresholds t =
      let cru = default_threshold t.cru_threshold in
      let mru = default_threshold t.mru_threshold in
      let hru = default_threshold t.hru_threshold in
      let sru = default_threshold t.sru_threshold in
      if out_of_range cru || out_of_range hru || out_of_range sru || out_of_range mru
      then err threshold_range
      else ok (record {
        cru_threshold = clamp_threshold cru;
        sru_threshold = clamp_threshold sru;
        mru_threshold = clamp_threshold mru;
        hru_threshold = clamp_threshold hru;
      })

abbrev pub day : ℕ
day = 24 * hour

-- `Hour()` and `Minute()` of a time, in UTC.
abbrev pub hour_of : ℕ → ℕ
hour_of t = t / hour % 24

abbrev pub minute_of : ℕ → ℕ
minute_of t = t / minute % 60

-- `PeriodicWakeUpTime`: the hour and the minute of the date, today.
unfoldable pub periodic_wake_up_time : ℕ → ℕ → ℕ
periodic_wake_up_time now date = (now - now % day) + (hour * hour_of date + minute * minute_of date)

-- The wake up start, which is the current time where it is not set.
unfoldable pub validate_start : ℕ → ℕ → ℕ
unfolding periodic_wake_up_time
validate_start now date =
    let start = periodic_wake_up_time now date in
    if hour_of start == 0 && minute_of start == 0 then periodic_wake_up_time now now else start

unfoldable pub validate : FloatOps → ℕ → State → Result Error State
validate fl now s =
    if s.farm.farm_id == 0
    then err farm_id_required
    else if ltb (length s.nodes) 2
    then err too_few_nodes
    else (elim (validate_nodes s.nodes) [
      | some e ↦ err e
      | none ↦ validate_thresholds fl p.wake_up_threshold >>= λ t. ok (record s {
        config = record (s.config) {
          power = record p {
            wake_up_threshold = t;
            periodic_wake_up_start = validate_start now p.periodic_wake_up_start;
            periodic_wake_up_limit =
                if p.periodic_wake_up_limit == 0 then 1 else p.periodic_wake_up_limit;
          };
        };
      })
    ])
  where
    p : PowerConfig
    p = s.config.power

-- An int8 that is 0 takes the default of 2.
unfoldable pub default_over_provision : ℤ → ℤ
default_over_provision (pos n) = if n == 0 then pos 2 else pos n
default_over_provision (negsuc n) = negsuc n

unfoldable pub new_state : FloatOps → Substrate → Rmb → ℕ → Config → ℕ → Result Error State
new_state fl sub rmb now cfg twin_id =
    if ltb_ℤ over (pos 1) || ltb_ℤ (pos 4) over then err over_provision_range else do
      farm ← wrap (sub.get_farm cfg.config_farm_id)
      (if twin_id == farm.farm_twin_id then ok tt else err unauthorized)
      nodes ← fetch_nodes sub rmb now cfg farm.dedicated_farm
      validate fl now (record {
        farm = farm;
        nodes = nodes;
        config = record cfg { power = record (cfg.power) { over_provision_cpu = over } };
        calls = [];
      })
  where
    over : ℤ
    over = default_over_provision cfg.power.over_provision_cpu

-- The nested loops of `ParseIntoConfig`, once the file is decoded.
unfoldable pub check_excluded : ℕ → List ℕ → Option Error
check_excluded i [] = none
check_excluded i (ex ∷ exs) =
    let rest = check_excluded i exs in if ex == i then some (included_and_excluded i) else rest

unfoldable pub check_included : List ℕ → List ℕ → Option Error
unfolding check_excluded
check_included [] excluded = none
check_included (i ∷ is) excluded =
    let rest = check_included is excluded in
    (elim (check_excluded i excluded) [ some e ↦ some e | none ↦ rest ])

unfoldable pub parse_into_config : Config → Result Error Config
unfolding check_included
parse_into_config input = elim (check_included input.included_nodes input.excluded_nodes) [
  | some e ↦ err e
  | none ↦ ok input
]
