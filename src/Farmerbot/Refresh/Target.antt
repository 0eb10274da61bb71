-- ===== src/Farmerbot/Refresh/Target.antt =====
-- How the power target of the chain sets a node's power state (farmerbot/internal/types.go and state.go).
use tfgrid_sdk_go.Prelude.{ℕ, ◌≡◌, Bool, true, false, not, ◌&&◌, arith, if◌then◌else◌}
use tfgrid_sdk_go.Farmerbot.Env.{PowerTarget}
use tfgrid_sdk_go.Farmerbot.Node.{PowerState, on, waking_up, off, shutting_down, state_eq, Node}
use tfgrid_sdk_go.Farmerbot.Refresh.{follow_target}

-- The state that a power target means.
abbrev pub state_of_target : Bool → Bool → PowerState
state_of_target true true = on
state_of_target true false = shutting_down
state_of_target false true = waking_up
state_of_target false false = off

-- A target in which both enums have one of their two values.
abbrev pub IsTarget : PowerTarget → Type 0
IsTarget t = (t.state_is_down ≡ not t.state_is_up) × (t.target_is_down ≡ not t.target_is_up)

-- If both enums of the target have one of their two values, the node takes the state of the target,
-- the time of the last change moves exactly if the state does, and the time awake only to a node that
-- comes on.
pub follow_target_state :
    (now : ℕ) (t : PowerTarget) (n : Node)
    → IsTarget t
    → let m = follow_target now t n in
      let s = state_of_target t.state_is_up t.target_is_up in
      (m.power_state ≡ s)
      × (m.last_time_power_state_changed
          ≡ (if state_eq n.power_state s then n.last_time_power_state_changed else now))
      × (m.last_time_awake
          ≡ (if state_eq s on && not (state_eq n.power_state on) then now else n.last_time_awake))
unfolding follow_target
follow_target_state now t n h = ground arith

-- Everything else stays as it was, whatever the target says.
pub follow_target_rest :
    (now : ℕ) (t : PowerTarget) (n : Node)
    → let m = follow_target now t n in
      (m.chain ≡ n.chain)
      × (m.resources ≡ n.resources)
      × (m.public_ips_used ≡ n.public_ips_used)
      × (m.timeout_claimed_resources ≡ n.timeout_claimed_resources)
      × (m.times_random_wake_ups ≡ n.times_random_wake_ups)
      × (m.has_active_rent_contract ≡ n.has_active_rent_contract)
      × (m.has_active_contracts ≡ n.has_active_contracts)
      × (m.dedicated ≡ n.dedicated)
      × (m.never_shut_down ≡ n.never_shut_down)
unfolding follow_target
follow_target_rest now t n = ground arith
