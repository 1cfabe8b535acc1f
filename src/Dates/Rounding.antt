-- ===== src/Dates/Rounding.antt =====
-- Rounding to seconds, minutes, hours, days and candles.
use quantoxide.Dates.{
  ceil_sec, floor_day, floor_hour, floor_minute, floor_to_resolution, is_round_minute,
  truncate_secs,
}
use quantoxide.Prelude.{arith, ◌%◌, ◌*◌, ◌+◌, ◌-◌, ◌<◌, ◌==◌, ◌≡◌, ◌≤◌}
use quantoxide.Shared.{OhlcResolution, as_minutes, as_seconds}
use quantoxide.Time.{DateTime, day, hour, minute, second, unix_epoch}

-- `ceil_sec` gives the first whole second at or after a time: any whole second `u` at or after the
-- time is not before the result.
pub ceil_sec-least :
    (t u : DateTime)
    → t ≤ u
    → u % second ≡ 0
    → (t ≤ ceil_sec t) × (ceil_sec t % second ≡ 0) × (ceil_sec t ≤ u)
unfolding ceil_sec
ceil_sec-least t u h k = ground arith

-- `floor_minute` gives the last whole minute at or before a time: any whole minute `u` at or before
-- the time is not after the result. `is_round_minute` tells whether the time is a whole minute.
pub floor_minute-greatest :
    (t u : DateTime)
    → u ≤ t
    → u % minute ≡ 0
    → (floor_minute t ≤ t)
      × (floor_minute t % minute ≡ 0)
      × (u ≤ floor_minute t)
      × (is_round_minute t ≡ (t % minute == 0))
unfolding floor_minute is_round_minute
floor_minute-greatest t u h k = ground arith

-- `floor_hour` and `floor_day` give the last whole hour and the last midnight at or before a time:
-- any whole hour `u` and midnight `v` at or before the time are not after the results.
pub floor_hour-day-greatest :
    (t u v : DateTime)
    → u ≤ t
    → u % hour ≡ 0
    → v ≤ t
    → v % day ≡ 0
    → (floor_hour t ≤ t)
      × (floor_hour t % hour ≡ 0)
      × (u ≤ floor_hour t)
      × (floor_day t ≤ t)
      × (floor_day t % day ≡ 0)
      × (v ≤ floor_day t)
unfolding floor_hour floor_day
floor_hour-day-greatest t u v a b c d = ground arith

-- From 1970 on, `floor_to_resolution` gives the start of the bucket a time lies in: a bucket is as
-- long as a candle, and buckets are counted from 1970.
pub floor_to_resolution-bucket :
    (r : OhlcResolution) (t : DateTime)
    → unix_epoch ≤ t
    → (floor_to_resolution r t ≤ t)
      × (t < floor_to_resolution r t + as_seconds r * second)
      × ((floor_to_resolution r t - unix_epoch) % (as_seconds r * second) ≡ 0)
unfolding floor_to_resolution truncate_secs as_seconds as_minutes
floor_to_resolution-bucket r t h = ground arith

-- Before 1970 `floor_to_resolution` gives the first start of a bucket, counted from 1970, that is not
-- before the whole second the time lies in: it rounds up, not down.
pub floor_to_resolution-before :
    (r : OhlcResolution) (t : DateTime)
    → t < unix_epoch
    → (t - t % second ≤ floor_to_resolution r t)
      × (floor_to_resolution r t < t - t % second + as_seconds r * second)
      × (floor_to_resolution r t ≤ unix_epoch)
      × ((unix_epoch - floor_to_resolution r t) % (as_seconds r * second) ≡ 0)
unfolding floor_to_resolution truncate_secs as_seconds as_minutes
floor_to_resolution-before r t h = ground arith

-- A later time has no earlier bucket.
floor_to_resolution_mono :
    (r : OhlcResolution) (t u : DateTime)
    → t ≤ u
    → floor_to_resolution r t ≤ floor_to_resolution r u
unfolding floor_to_resolution truncate_secs as_seconds as_minutes
floor_to_resolution_mono r t u h = ground arith
