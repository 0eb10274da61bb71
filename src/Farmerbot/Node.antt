-- ===== src/Farmerbot/Node.antt =====
-- farmerbot/internal/types.go: `powerState`, `node` and the methods that read or claim resources.
-- A time is the number of nanoseconds since Go's zero time; `now` is what `time.Now` gives.
pub mod Claims
use tfgrid_sdk_go.Prelude.{
  ℕ, ◌≡◌, arith, ◌-◌, ◌*◌, ◌^◌, Bool, true, false, not, ◌&&◌, ◌||◌, List, ltb, leb, ◌==◌,
  if◌then◌else◌,
}
use tfgrid_sdk_go.Prelude.Int.{ℤ}
use tfgrid_sdk_go.Farmerbot.Capacity.{Capacity, is_empty, add, subtract}
use tfgrid_sdk_go.Farmerbot.Env.{
  ChainNode, ZosCapacity, Counters, Gpu, PoolMetrics, FloatOps, Float64,
}

pub data PowerState : Type 0 where
  on waking_up off shutting_down : PowerState

-- The value of the constant: `iota` from `on`.
abbrev pub rank : PowerState → ℕ
rank on = 0
rank waking_up = 1
rank off = 2
rank shutting_down = 3

abbrev pub state_eq : PowerState → PowerState → Bool
state_eq a b = rank a == rank b

pub record ConsumableResources : Type 0 where
  pub total : Capacity
  pub used : Capacity
  pub system : Capacity

pub record Node : Type 0 where
  pub chain : ChainNode
  pub open chain use *
  pub resources : ConsumableResources
  pub open resources use *
  pub public_ips_used : ℕ
  pub pools : List PoolMetrics
  pub gpus : List Gpu
  pub has_active_rent_contract : Bool
  pub has_active_contracts : Bool
  pub dedicated : Bool
  pub never_shut_down : Bool
  pub power_state : PowerState
  pub timeout_claimed_resources : ℕ
  pub last_time_power_state_changed : ℕ
  pub last_time_awake : ℕ
  pub times_random_wake_ups : ℕ
  pub last_time_periodic_wake_up : ℕ

abbrev pub minute : ℕ
minute = 60 * 10 ^ 9

abbrev pub hour : ℕ
hour = 60 * minute

abbrev pub periodic_wake_up_duration : ℕ
periodic_wake_up_duration = 30 * minute

abbrev pub timeout_power_state_change : ℕ
timeout_power_state_change = 30 * minute

-- `time.Since(t)`: a time in the future gives a negative duration in Go and 0 here, and both are
-- below every duration that the code compares with.
abbrev pub since : ℕ → ℕ → ℕ
since now t = now - t

-- `capacity.update`
abbrev pub capacity_of : ZosCapacity → Capacity
capacity_of c = record { hru = c.hru; sru = c.sru; cru = c.cru; mru = c.mru }

unfoldable pub update_resources : Node → Counters → Node
update_resources n stats = record n {
  resources = record {
    total = capacity_of stats.total;
    used = capacity_of stats.used;
    system = capacity_of stats.system;
  };
  public_ips_used = stats.used.ipv4u;
}

unfoldable pub is_unused : Node → Bool
unfolding is_empty subtract
is_unused n = is_empty (subtract n.used n.system) && not n.has_active_rent_contract

unfoldable pub free_capacity : FloatOps → Node → ℤ → Capacity
unfolding subtract
free_capacity fl n over =
    subtract
      (record total {
        cru = fl.to_uint64 (fl.ceil (fl.float_mul (fl.of_uint64 total.cru) (fl.of_int8 over)));
      })
      used
  where
    open n use {total, used}

unfoldable pub can_claim_resources : FloatOps → Node → Capacity → ℤ → Bool
can_claim_resources fl n cap over =
    leb cap.cru n.total.cru
    && leb cap.cru free.cru
    && leb cap.mru free.mru
    && leb cap.hru free.hru
    && leb cap.sru free.sru
  where
    free : Capacity
    free = free_capacity fl n over

unfoldable pub claim_resources : Node → Capacity → Node
unfolding add
claim_resources n c = record n {
  resources = record { total = n.total; used = add n.used c; system = n.system };
}

-- `timeoutClaimedResources.After(time.Now())`
abbrev pub has_claimed_resources : ℕ → Node → Bool
has_claimed_resources now n = ltb now n.timeout_claimed_resources

unfoldable pub can_shut_down : ℕ → Node → Bool
unfolding is_unused
can_shut_down now n =
    if not (state_eq n.power_state on)
      || not (is_unused n)
      || n.has_public_config
      || n.never_shut_down
      || n.has_active_rent_contract
      || n.has_active_contracts
      || has_claimed_resources now n
      || ltb (since now n.last_time_power_state_changed) periodic_wake_up_duration
    then false
    else true

pub state_eq_iff : (a b : PowerState) → state_eq a b ≡ true → a ≡ b
state_eq_iff a b h = ground arith
