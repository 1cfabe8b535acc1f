-- ===== src/Examples/Calendar.antt =====
-- Rounding of times and validation at concrete inputs.
use quantoxide.Dates.{floor_to_resolution}
use quantoxide.Dates.Funding.{
  ceil_funding_settlement_time, floor_funding_settlement_time, is_valid_funding_settlement_time,
  settlement_b_end, settlement_b_start,
}
use quantoxide.Dates.Funding.Ceil.{ceil-least}
use quantoxide.Dates.Funding.Floor.{floor-greatest}
use quantoxide.Dates.Rounding.{floor_to_resolution-before, floor_to_resolution-bucket}
use quantoxide.Prelude.{arith, inl, ok, refl, true, ◌%◌, ◌*◌, ◌+◌, ◌-◌, ◌<◌, ◌↔◌, ◌≡◌, ◌≤◌}
use quantoxide.Prelude.Int.{pos, ◌+ℤ◌, ◌-ℤ◌}
use quantoxide.Shared.{
  Lookback, as_minutes, as_seconds, five_minutes, lookback_new, one_hour, one_minute,
}
use quantoxide.Shared.Validation.{lookback_new-exact}
use quantoxide.Time.{DateTime, minute, second, unix_epoch}

-- 2025-04-10 21:00 and 2025-04-11 04:00, the last settlement of phase B.
abbrev evening : DateTime
evening = (96465292 + 20188) * 86400000000000 + 21 * 3600000000000

ceil-least_example :
    (is_valid_funding_settlement_time (ceil_funding_settlement_time evening) ≡ true)
    × (evening ≤ ceil_funding_settlement_time evening)
    × (ceil_funding_settlement_time evening ≤ settlement_b_end)
unfolding is_valid_funding_settlement_time ◌+ℤ◌ ◌-ℤ◌
ceil-least_example = ceil-least evening settlement_b_end (omega arith) refl (inl (omega arith))

floor-greatest_example :
    (is_valid_funding_settlement_time (floor_funding_settlement_time evening) ≡ true)
    × (floor_funding_settlement_time evening ≤ evening)
    × (settlement_b_start ≤ floor_funding_settlement_time evening)
unfolding is_valid_funding_settlement_time ◌+ℤ◌ ◌-ℤ◌
floor-greatest_example =
    floor-greatest evening settlement_b_start (omega arith) (omega arith) refl (inl (omega arith))

floor_to_resolution-bucket_example :
    (floor_to_resolution five_minutes evening ≤ evening)
    × (evening < floor_to_resolution five_minutes evening + as_seconds five_minutes * second)
    × ((floor_to_resolution five_minutes evening - unix_epoch) % (as_seconds five_minutes * second)
        ≡ 0)
floor_to_resolution-bucket_example = floor_to_resolution-bucket five_minutes evening (omega arith)

-- 59.5 seconds before 1970.
abbrev before_epoch : DateTime
before_epoch = unix_epoch - 59500000000

floor_to_resolution-before_example :
    (unix_epoch - minute ≤ floor_to_resolution one_minute before_epoch)
    × (floor_to_resolution one_minute before_epoch
        < unix_epoch - minute + as_seconds one_minute * second)
    × (floor_to_resolution one_minute before_epoch ≤ unix_epoch)
    × ((unix_epoch - floor_to_resolution one_minute before_epoch) % (as_seconds one_minute * second)
        ≡ 0)
floor_to_resolution-before_example =
    floor_to_resolution-before one_minute before_epoch (omega arith)

abbrev ten_hours : Lookback
ten_hours = record { resolution = one_hour; period = record { as_u32 = 10 } }

lookback_new-exact_example : (lookback_new one_hour (pos 10) ≡ ok ten_hours) ↔ (
    (pos 10 ≡ pos 10)
    × (one_hour ≡ one_hour)
    × (1 ≤ 10)
    × (10 * (as_minutes one_hour * 60) ≤ 500 * 24 * 3600))
lookback_new-exact_example = lookback_new-exact one_hour (pos 10) ten_hours
