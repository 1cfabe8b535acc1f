-- ===== src/Shared.antt =====
-- src/shared/mod.rs: resolutions, periods, iteration intervals and lookbacks. The error payloads
-- are left out.
pub mod Validation
use quantoxide.Prelude.{Result, err, if◌then◌else◌, ltb, map_err, ok, ℕ, ◌*◌, ◌>>=◌}
use quantoxide.Prelude.Int.{ltb_ℤ, pos, pos_part, ℤ}
use quantoxide.Time.{day, hour, minute, second}

pub data OhlcResolution : Type 0 where
  one_minute three_minutes five_minutes ten_minutes fifteen_minutes thirty_minutes : OhlcResolution
  forty_five_minutes one_hour two_hours three_hours four_hours one_day : OhlcResolution

unfoldable pub as_minutes : OhlcResolution → ℕ
as_minutes one_minute = 1
as_minutes three_minutes = 3
as_minutes five_minutes = 5
as_minutes ten_minutes = 10
as_minutes fifteen_minutes = 15
as_minutes thirty_minutes = 30
as_minutes forty_five_minutes = 45
as_minutes one_hour = 60
as_minutes two_hours = 120
as_minutes three_hours = 180
as_minutes four_hours = 240
as_minutes one_day = 1440

unfoldable pub as_seconds : OhlcResolution → ℕ
as_seconds r = as_minutes r * 60

pub data PeriodValidationError : Type 0 where
  too_short too_long : PeriodValidationError

pub data MinIterationIntervalValidationError : Type 0 where
  interval_too_short interval_too_long : MinIterationIntervalValidationError

pub data LookbackValidationError : Type 0 where
  invalid_period : PeriodValidationError → LookbackValidationError
  exceeds_max_lookback : LookbackValidationError

pub record Period : Type 0 where
  pub as_u32 : ℕ

-- `Lookback::MAX`, 500 days, and the same in minutes, which is `Period::MAX`.
abbrev pub max_lookback : ℕ
max_lookback = 500 * day

abbrev pub min_period : ℕ
min_period = 1

abbrev pub max_period : ℕ
max_period = 500 * 1440

-- `as_duration`: below 2 ^ 32 * 1440 minutes, so the i64 product does not overflow.
pub period_as_duration : Period → OhlcResolution → ℕ
period_as_duration p r = p.as_u32 * as_minutes r * minute

-- `TryFrom<i128>`, which the other integer types go through.
pub period_try_from : ℤ → Result Period PeriodValidationError
period_try_from value =
    if ltb_ℤ value (pos min_period)
    then err too_short
    else if ltb_ℤ (pos max_period) value
    then err too_long
    else ok record { as_u32 = pos_part value }

pub record Lookback : Type 0 where
  pub resolution : OhlcResolution
  pub period : Period

pub lookback_new : OhlcResolution → ℤ → Result Lookback LookbackValidationError
lookback_new r value = do
  p ← map_err invalid_period (period_try_from value)
  if ltb max_lookback (period_as_duration p r)
      then err exceeds_max_lookback
      else ok record { resolution = r; period = p }

pub record MinIterationInterval : Type 0 where
  pub as_duration : ℤ

-- `TryFrom<Duration>`: from five seconds to one hour.
pub min_iteration_interval_try_from :
    ℤ → Result MinIterationInterval MinIterationIntervalValidationError
min_iteration_interval_try_from value =
    if ltb_ℤ value (pos (5 * second))
    then err interval_too_short
    else if ltb_ℤ (pos hour) value
    then err interval_too_long
    else ok record { as_duration = value }
