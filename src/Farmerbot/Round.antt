-- ===== src/Farmerbot/Round.antt =====
-- One round of the farmerbot: `iterateOnNodes` and `shouldWakeUp` of farmerbot/internal/farmerbot.go.
-- A round starts at `start`, and `now` is what `time.Now` gives while it runs. The grid proxy and the
-- random source answer by the id of the node.
pub mod Divisor
pub mod Prune
pub mod Calls
pub mod Accepted
use tfgrid_sdk_go.Prelude.{
  ℕ, zero, suc, ◌+◌, ◌-◌, ◌*◌, ◌/◌, ◌%◌, Bool, true, false, not, ◌||◌, ◌&&◌, List, [], ◌∷◌, ◌++◌,
  Option, none, some, Result, ok, err, ◌>>=◌, ltb, leb, ◌==◌, length, get_elem?, contains,
  if◌then◌else◌,
}
use Prim.Native.Nat.{min}
use tfgrid_sdk_go.Farmerbot.Env.{ChainError, Substrate, Rmb, FloatOps}
use tfgrid_sdk_go.Farmerbot.Node.{
  PowerState, off, state_eq, Node, minute, hour, since, periodic_wake_up_duration,
}
use tfgrid_sdk_go.Farmerbot.State.{
  PowerConfig, State, Error, chain_error, divide_by_zero, get_node, delete_node,
}
use tfgrid_sdk_go.Farmerbot.Power.{store_node, power_on}
use tfgrid_sdk_go.Farmerbot.Manage.{manage_nodes_power}
use tfgrid_sdk_go.Farmerbot.Refresh.{zero_node, add_or_update_node}
use tfgrid_sdk_go.Farmerbot.Setup.{
  day, hour_of, minute_of, periodic_wake_up_time, is_managed, add_priority_to_nodes,
}

-- What else a round asks: when the proxy last heard of a node, `rand.Int31`, and the day of the month.
pub record World : Type 0 where
  pub updated_at : ℕ → Option ℕ
  pub random : ℕ → ℕ
  pub day_of_month : ℕ → ℕ

abbrev default_random_wake_ups_a_month : ℕ
default_random_wake_ups_a_month = 10

-- The size of the divisor in the test for a random wake up; Go's remainder is 0 or not whatever the
-- divisor's sign. `none` is a division by zero inside of it.
unfoldable pub random_divisor : ℕ → ℕ → Option ℕ
random_divisor limit nodes_len =
    let k = min limit nodes_len in
    if k == 0
    then none
    else (let q = 10 * (nodes_len - 1) / k in
        if leb q 8400 then some ((8400 - q) / 10) else some ((q - 8400) / 10))

-- Whether a draw calls for a wake up; a divisor of 0 is a panic of the program.
unfoldable pub random_wake_up : ℕ → ℕ → ℕ → Result Error Bool
random_wake_up limit nodes_len draw = elim (random_divisor limit nodes_len) [
  | none ↦ err divide_by_zero
  | some d ↦ if d == 0 then err divide_by_zero else ok (draw % d == 0)
]

unfoldable pub should_wake_up :
    World → PowerConfig → ℕ → ℕ → ℕ → ℕ → Node → Result Error (Bool × Node)
should_wake_up w p nodes_len start now wake_up_calls node =
    if not (state_eq node.power_state off) || leb p.periodic_wake_up_limit wake_up_calls
    then ok (false, node)
    else (elim (w.updated_at node.id) [
      | none ↦ ok (false, node)
      | some updated ↦
          if ltb (24 * hour) (since now updated)
          then ok (true, record node { last_time_periodic_wake_up = now })
          else if ltb (since now node.last_time_power_state_changed) periodic_wake_up_duration
          then ok (false, node)
          else if ltb wake_start start && ltb node.last_time_awake wake_start
          then ok (true, record node { last_time_periodic_wake_up = now })
          else if ltb node.times_random_wake_ups default_random_wake_ups_a_month
          then (random_wake_up p.periodic_wake_up_limit nodes_len (w.random node.id) >>= λ hit. ok (
              if hit
              then (true, record node { times_random_wake_ups = node.times_random_wake_ups + 1 })
              else (false, node)))
          else ok (false, node)
    ])
  where
    wake_start : ℕ
    wake_start = periodic_wake_up_time now p.periodic_wake_up_start

-- The last element, as a list.
abbrev pub last_one : List Node → List Node
last_one [] = []
last_one (n ∷ []) = n ∷ []
last_one (n ∷ m ∷ ns) = last_one (m ∷ ns)

-- `deleteNode` on the array under the slice: `slices.Delete` of Go 1.21 shifts the elements that
-- follow, and leaves the last one behind past the end.
unfoldable pub delete_in : ℕ → List Node × List Node → List Node × List Node
delete_in node_id (ns, stale) = elim (get_node ns node_id) [
  | none ↦ (ns, stale)
  | some node ↦ (delete_node ns node_id, last_one ns ++ stale)
]

-- The loop that removes nodes which left the farm. It ranges over the array that it deletes from:
-- the round at place `i` sees what stands there by then, in the slice or past its end.
unfoldable pub prune : List ℕ → ℕ → ℕ → List Node × List Node → List Node × List Node
prune farm_nodes zero i s = s
prune farm_nodes (suc rounds) i s =
    prune farm_nodes rounds (i + 1) (elim (get_elem? (s.0 ++ s.1) i) [
      | none ↦ s
      | some node ↦ if contains farm_nodes node.id then s else delete_in node.id s
    ])

unfoldable pub remove_missing : List ℕ → List Node → List Node
remove_missing farm_nodes ns = (prune farm_nodes (length ns) 0 (ns, [])).0

-- `_, node, err := getNode(nodeID)`, where the error is only logged.
abbrev pub get_or_zero : List Node → ℕ → Node
get_or_zero ns k = elim (get_node ns k) [ some node ↦ node | none ↦ zero_node ]

-- On the first day of the month, between one o'clock and five minutes past.
abbrev pub is_reset_time : World → ℕ → Bool
is_reset_time w start = w.day_of_month start == 1 && hour_of start == 1 && ltb (minute_of start) 5

-- The node is powered on because it must not stay off.
unfoldable pub keep_up : Substrate → ℕ → ℕ → Node → State → State
keep_up sub now node_id node f =
    if state_eq node.power_state off && (node.never_shut_down || node.has_active_rent_contract)
    then (power_on sub now node_id f).1
    else f

-- The rest of the loop's body from the test for a wake up, with the number of wake up calls.
unfoldable pub wake_up_round :
    World → Substrate → ℕ → ℕ → ℕ → Node → State × ℕ → Result Error (State × ℕ)
wake_up_round w sub start now node_id node (f, calls) =
    should_wake_up w f.config.power (length f.nodes) start now calls node >>= λ r. ok (
      if r.0
      then (let (failed, g) = power_on sub now node_id (store_node f r.1).1 in
          elim failed [ some e ↦ (g, calls) | none ↦ (g, (calls + 1) % 256) ])
      else (f, calls))

-- The body of the loop for one node of the farm. The node is read once, so what is stored later
-- is the copy from before `powerOn`.
unfoldable pub node_round :
    World → Substrate → Rmb → ℕ → ℕ → ℕ → State × ℕ → Result Error (State × ℕ)
node_round w sub rmb start now node_id (f, calls) =
    if not (is_managed f.config node_id)
    then ok (f, calls)
    else (let g = (add_or_update_node sub rmb now node_id f).1 in
        let node = get_or_zero g.nodes node_id in
        let h = keep_up sub now node_id node g in
        if is_reset_time w start
        then (let node' = record node { times_random_wake_ups = 0 } in
            wake_up_round w sub start now node_id node' ((store_node h node').1, calls))
        else wake_up_round w sub start now node_id node (h, calls))

unfoldable pub nodes_loop :
    World → Substrate → Rmb → ℕ → ℕ → List ℕ → State × ℕ → Result Error (State × ℕ)
nodes_loop w sub rmb start now [] s = ok s
nodes_loop w sub rmb start now (k ∷ ks) s =
    node_round w sub rmb start now k s >>= λ s'. nodes_loop w sub rmb start now ks s'

-- `iterateOnNodes`: the error that it returns, and the state; `err` is a panic.
unfoldable pub iterate_on_nodes :
    FloatOps → World → Substrate → Rmb → ℕ → ℕ → State → Result Error (Option Error × State)
iterate_on_nodes fl w sub rmb start now f = elim (sub.get_nodes f.farm.farm_id) [
  | err e ↦ ok (some (chain_error e), f)
  | ok farm_nodes ↦
      nodes_loop w sub rmb start now (add_priority_to_nodes f.config.priority_nodes farm_nodes)
        (record f { nodes = remove_missing farm_nodes f.nodes }, 0)
      >>= λ s. ok (manage_nodes_power fl sub now s.0)
]
