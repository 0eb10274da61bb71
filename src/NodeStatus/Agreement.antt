-- ===== src/NodeStatus/Agreement.antt =====
-- The SQL of grid-proxy/pkg/nodestatus/nodestatus.go agrees with `DecideNodeStatus`.
use tfgrid_sdk_go.Prelude.{
  ℕ, ◌≡◌, refl, Bool, true, false, ◌||◌, List, [], ◌∷◌, Option, none, some, arith, ◌==◌,
  if◌then◌else◌, ◌∙◌, ap,
}
use tfgrid_sdk_go.NodeStatus.{
  Word, up_word, down_word, empty_word, NodePower, Status, up, down, standby, decide_node_status,
  Row, evaluate, or_null, holds, selects, condition_of, decide_node_status_condition,
  decide_node_status_ordering,
}

abbrev status_code : Status → ℕ
status_code up = 0
status_code down = 1
status_code standby = 2

abbrev pub status_eq : Status → Status → Bool
status_eq a b = status_code a == status_code b

abbrev word_of : Bool → Word
word_of true = up_word
word_of false = down_word

-- A row whose power is NULL, or has both words up or down, and the power that the node then has.
abbrev pub row_of : Option (Bool × Bool) → ℕ → Row
row_of none t = record { row_power = none; row_updated_at = t }
row_of (some (s, g)) t = record {
  row_power = some (record { state = word_of s; target = word_of g });
  row_updated_at = t;
}

abbrev pub power_of : Option (Bool × Bool) → NodePower
power_of none = record { state = empty_word; target = empty_word }
power_of (some (s, g)) = record { state = word_of s; target = word_of g }

-- Each condition selects the rows of its status.
pub condition_of-status :
    (now : ℕ) (s : Status) (p : Option (Bool × Bool)) (t : ℕ)
    → selects (row_of p t) (condition_of now s)
      ≡ status_eq (decide_node_status now (power_of p) t) s
unfolding condition_of decide_node_status evaluate
condition_of-status now up none t = ground arith
condition_of-status now down none t = ground arith
condition_of-status now standby none t = ground arith
condition_of-status now up (some (true, true)) t = ground arith
condition_of-status now up (some (true, false)) t = ground arith
condition_of-status now up (some (false, true)) t = ground arith
condition_of-status now up (some (false, false)) t = ground arith
condition_of-status now down (some (true, true)) t = ground arith
condition_of-status now down (some (true, false)) t = ground arith
condition_of-status now down (some (false, true)) t = ground arith
condition_of-status now down (some (false, false)) t = ground arith
condition_of-status now standby (some (true, true)) t = ground arith
condition_of-status now standby (some (true, false)) t = ground arith
condition_of-status now standby (some (false, true)) t = ground arith
condition_of-status now standby (some (false, false)) t = ground arith

holds-or_null : (a b : Option Bool) → holds (or_null a b) ≡ (holds a || holds b)
holds-or_null none none = refl
holds-or_null none (some true) = refl
holds-or_null none (some false) = refl
holds-or_null (some true) b = refl
holds-or_null (some false) b = refl

abbrev pub any_status : Status → Status → List Status → Bool
any_status d s [] = status_eq d s
any_status d s (t ∷ ts) = status_eq d s || any_status d t ts

-- For a row whose power is NULL, or has both words up or down: the SQL for one or more statuses
-- selects it exactly if `decide_node_status`, at the same time, gives the node one of them.
pub condition-status :
    (now : ℕ) (s : Status) (ss : List Status) (p : Option (Bool × Bool)) (t : ℕ)
    → selects (row_of p t) (decide_node_status_condition now s ss)
      ≡ any_status (decide_node_status now (power_of p) t) s ss
unfolding decide_node_status_condition evaluate
condition-status now s [] p t = condition_of-status now s p t
condition-status now s (u ∷ us) p t =
    holds-or_null (evaluate (row_of p t) (condition_of now s)) _
    ∙ ap (λ b. b || selects (row_of p t) (decide_node_status_condition now u us))
        (condition_of-status now s p t)
    ∙ ap (λ b. status_eq (decide_node_status now (power_of p) t) s || b)
        (condition-status now u us p t)

-- For a row whose power is NULL, or has both words up or down: the SQL orders by the status that
-- `decide_node_status` gives at the same time, up before standby before down or the other way round.
pub ordering-status :
    (now : ℕ) (descending : Bool) (p : Option (Bool × Bool)) (t : ℕ)
    → decide_node_status_ordering now descending (row_of p t)
      ≡ (elim (decide_node_status now (power_of p) t) [
        | up ↦ if descending then 3 else 1
        | down ↦ if descending then 1 else 3
        | standby ↦ 2
      ])
unfolding decide_node_status_ordering
ordering-status now descending p t = ground (
  arith,
  condition_of-status now up p t,
  condition_of-status now standby p t,
  condition_of-status now down p t,
)
