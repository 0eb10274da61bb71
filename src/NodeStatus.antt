-- ===== src/NodeStatus.antt =====
-- grid-proxy/pkg/nodestatus/nodestatus.go: the status of a node, computed for a node in hand by
-- `DecideNodeStatus` and for the rows of the database by the SQL of `DecideNodeStatusCondition` and
-- `DecideNodeStatusOrdering`. An SQL text is its syntax tree, with the parentheses of the source, and
-- `evaluate` is PostgreSQL's logic, where `none` is NULL. Times are seconds since 1970.
pub mod Agreement
mod Tests
use tfgrid_sdk_go.Prelude.{
  ℕ, ◌-◌, ◌*◌, Bool, true, false, not, ◌&&◌, ◌||◌, List, [], ◌∷◌, Option, none, some, leb, ltb,
  ◌==◌, if◌then◌else◌,
}

-- The value of `state` or `target`; `empty_word` is the zero value of a node without power.
pub data Word : Type 0 where
  up_word down_word empty_word other_word : Word

abbrev word_code : Word → ℕ
word_code up_word = 0
word_code down_word = 1
word_code empty_word = 2
word_code other_word = 3

abbrev pub word_eq : Word → Word → Bool
word_eq a b = word_code a == word_code b

pub record NodePower : Type 0 where
  pub state : Word
  pub target : Word

pub data Status : Type 0 where
  up down standby : Status

abbrev node_up_interval : ℕ → ℕ
node_up_interval now = now - 2 * (40 * 60)

abbrev node_standby_interval : ℕ → ℕ
node_standby_interval now = now - 1 * (24 * 3600)

-- `DecideNodeStatus`
unfoldable pub decide_node_status : ℕ → NodePower → ℕ → Status
decide_node_status now power updated_at =
    if in_up && (nil_power || powered_on)
    then up
    else if (powered_off || powering_off || powering_on) && in_standby
    then standby
    else down
  where
    is : Word → Word → Bool
    is s t = word_eq power.state s && word_eq power.target t

    nil_power : Bool
    nil_power = is empty_word empty_word

    powered_off : Bool
    powered_off = is down_word down_word

    powered_on : Bool
    powered_on = is up_word up_word

    powering_on : Bool
    powering_on = is down_word up_word

    powering_off : Bool
    powering_off = is up_word down_word

    in_up : Bool
    in_up = leb (node_up_interval now) updated_at

    in_standby : Bool
    in_standby = leb (node_standby_interval now) updated_at

-- The columns of a row that are read; the power may be NULL.
pub record Row : Type 0 where
  pub row_power : Option NodePower
  pub row_updated_at : ℕ

pub data Sql : Type 0 where
  power_is_null : Sql
  state_is target_is : Word → Sql
  updated_from updated_before : ℕ → Sql
  both either : Sql → Sql → Sql

-- AND and OR on three truth values.
abbrev pub and_null : Option Bool → Option Bool → Option Bool
and_null (some false) b = some false
and_null (some true) b = b
and_null none (some false) = some false
and_null none (some true) = none
and_null none none = none

abbrev pub or_null : Option Bool → Option Bool → Option Bool
or_null (some true) b = some true
or_null (some false) b = b
or_null none (some true) = some true
or_null none (some false) = none
or_null none none = none

abbrev pub compare_field : (NodePower → Word) → Word → Option NodePower → Option Bool
compare_field field w none = none
compare_field field w (some p) = some (word_eq (field p) w)

abbrev is_null : Option NodePower → Bool
is_null none = true
is_null (some p) = false

unfoldable pub evaluate : Row → Sql → Option Bool
evaluate r power_is_null = some (is_null r.row_power)
evaluate r (state_is w) = compare_field (λ p. p.state) w r.row_power
evaluate r (target_is w) = compare_field (λ p. p.target) w r.row_power
evaluate r (updated_from t) = some (leb t r.row_updated_at)
evaluate r (updated_before t) = some (ltb r.row_updated_at t)
evaluate r (both a b) = and_null (evaluate r a) (evaluate r b)
evaluate r (either a b) = or_null (evaluate r a) (evaluate r b)

-- A WHERE clause keeps the rows for which the condition is true.
abbrev pub holds : Option Bool → Bool
holds (some b) = b
holds none = false

abbrev pub selects : Row → Sql → Bool
selects r c = holds (evaluate r c)

abbrev power_is : Word → Word → Sql
power_is s t = both (state_is s) (target_is t)

-- The map `conditions`.
unfoldable pub condition_of : ℕ → Status → Sql
condition_of now up =
    both (updated_from (node_up_interval now)) (either power_is_null (power_is up_word up_word))
condition_of now down =
    either
      (both (updated_before (node_up_interval now))
        (either power_is_null (power_is up_word up_word)))
      (updated_before (node_standby_interval now))
condition_of now standby =
    both
      (either (either (power_is down_word down_word) (power_is up_word down_word))
        (power_is down_word up_word))
      (updated_from (node_standby_interval now))

-- `DecideNodeStatusCondition` for at least one status.
unfoldable pub decide_node_status_condition : ℕ → Status → List Status → Sql
decide_node_status_condition now s [] = condition_of now s
decide_node_status_condition now s (t ∷ ts) =
    either (condition_of now s) (decide_node_status_condition now t ts)

-- The value of the CASE in `DecideNodeStatusOrdering`, descending or not: the first case that holds.
unfoldable pub decide_node_status_ordering : ℕ → Bool → Row → ℕ
decide_node_status_ordering now descending r =
    if selects r (condition_of now up)
    then if descending then 3 else 1
    else if selects r (condition_of now standby)
    then 2
    else if selects r (condition_of now down)
    then if descending then 1 else 3
    else 4
