-- ===== src/Farmerbot/Setup/Ranges.antt =====
-- What `validate` of farmerbot/internal/state.go makes of the wake up thresholds and the start time.
use tfgrid_sdk_go.Prelude.{ℕ, ◌/◌, ◌≡◌, false, ok, arith}
use tfgrid_sdk_go.Farmerbot.Env.{FloatOps, Float64}
use tfgrid_sdk_go.Farmerbot.Env.Laws.{FloatLaws}
use tfgrid_sdk_go.Farmerbot.State.{Thresholds}
use tfgrid_sdk_go.Farmerbot.Setup.{
  default_threshold, clamp_threshold, validate_thresholds, day, hour_of, minute_of,
  periodic_wake_up_time,
}

module _ (fl : FloatOps) where
  -- Neither below 50 nor above 80. (NaN, which a file can hold, is neither.)
  abbrev pub InRange : Float64 → Type 0
  InRange x = (fl.float_lt x (fl.of_uint64 50) ≡ false) × (fl.float_lt (fl.of_uint64 80) x ≡ false)

  abbrev pub AllInRange : Thresholds → Type 0
  AllInRange t =
      InRange t.cru_threshold
      × InRange t.sru_threshold
      × InRange t.mru_threshold
      × InRange t.hru_threshold

  clamp_threshold-InRange : (x : Float64) → FloatLaws fl → InRange (clamp_threshold fl x)
  unfolding clamp_threshold
  clamp_threshold-InRange x laws = ground (
    arith,
    laws.lt_exact 50 50 (omega arith) (omega arith),
    laws.lt_exact 80 50 (omega arith) (omega arith),
    laws.lt_exact 80 80 (omega arith) (omega arith),
  )

  -- A threshold in the range is kept.
  clamp_threshold_same : (x : Float64) → InRange x → clamp_threshold fl x ≡ x
  unfolding clamp_threshold
  clamp_threshold_same x r = ground arith

  -- Where float64 is exact on small integers: if the thresholds are accepted, each of the four is
  -- neither below 50 nor above 80.
  pub validate_thresholds-AllInRange :
      (t : Thresholds) {u : Thresholds}
      → FloatLaws fl
      → validate_thresholds fl t ≡ ok u
      → AllInRange u
  unfolding validate_thresholds
  validate_thresholds-AllInRange t laws h = ground (
    arith,
    clamp_threshold-InRange (default_threshold fl t.cru_threshold) laws,
    clamp_threshold-InRange (default_threshold fl t.sru_threshold) laws,
    clamp_threshold-InRange (default_threshold fl t.mru_threshold) laws,
    clamp_threshold-InRange (default_threshold fl t.hru_threshold) laws,
  )

-- The wake up time is a time of the day of `now`, with the hour and the minute of the date.
pub periodic_wake_up_time_today :
    (now date : ℕ)
    → (periodic_wake_up_time now date / day ≡ now / day)
      × (hour_of (periodic_wake_up_time now date) ≡ hour_of date)
      × (minute_of (periodic_wake_up_time now date) ≡ minute_of date)
unfolding periodic_wake_up_time
periodic_wake_up_time_today now date = (omega arith, omega arith, omega arith)
