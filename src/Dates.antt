-- ===== src/Dates.antt =====
-- src/util/dates/mod.rs: rounding of times to seconds, minutes, hours, days and candles.
pub mod Funding
pub mod Rounding
use quantoxide.Prelude.{Bool, if◌then◌else◌, leb, suc, zero, ℕ, ◌%◌, ◌*◌, ◌+◌, ◌-◌, ◌/◌, ◌==◌}
use quantoxide.Shared.{OhlcResolution, as_minutes, as_seconds}
use quantoxide.Time.{DateTime, day, hour, minute, second, unix_epoch_secs}

-- `timestamp`, relative to `MIN_UTC`, and the fields of the time of day.
abbrev pub secs_of : DateTime → ℕ
secs_of t = t / second

abbrev pub nanosecond_of : DateTime → ℕ
nanosecond_of t = t % second

abbrev pub second_of : DateTime → ℕ
second_of t = t % minute / second

abbrev pub minute_of : DateTime → ℕ
minute_of t = t % hour / minute

abbrev pub hour_of : DateTime → ℕ
hour_of t = t % day / hour

-- Midnight of the date: `date_naive().and_hms_opt(0, 0, 0)`.
abbrev pub midnight : DateTime → DateTime
midnight t = t - t % day

-- `trunc_subsecs(0)`, `with_second(0)`, `with_minute(0)`
abbrev pub trunc_subsecs : DateTime → DateTime
trunc_subsecs t = t - nanosecond_of t

abbrev pub with_second_0 : DateTime → DateTime
with_second_0 t = t - second_of t * second

abbrev pub with_minute_0 : DateTime → DateTime
with_minute_0 t = t - minute_of t * minute

pub ceil_sec : DateTime → DateTime
ceil_sec t =
    let trunc_time_sec = trunc_subsecs t in
    if trunc_time_sec == t then trunc_time_sec else trunc_time_sec + second

pub floor_minute : DateTime → DateTime
floor_minute t = with_second_0 (trunc_subsecs t)

pub is_round_minute : DateTime → Bool
is_round_minute t = t == floor_minute t

unfoldable pub floor_hour : DateTime → DateTime
floor_hour t = with_minute_0 (with_second_0 (trunc_subsecs t))

pub floor_day : DateTime → DateTime
floor_day t = midnight t

-- `(timestamp / n) * n` with `/` on i64, which rounds towards 1970. No resolution has 0 seconds.
unfoldable pub truncate_secs : (n : ℕ) → DateTime → DateTime
truncate_secs zero t = t
truncate_secs (suc n) t =
    if leb unix_epoch_secs (secs_of t)
    then (unix_epoch_secs + (secs_of t - unix_epoch_secs) / suc n * suc n) * second
    else (unix_epoch_secs - (unix_epoch_secs - secs_of t) / suc n * suc n) * second

unfoldable pub floor_to_resolution : OhlcResolution → DateTime → DateTime
floor_to_resolution r t = truncate_secs (as_seconds r) t

-- Where the result would be before `MIN_UTC`, the code panics and this gives 0.
pub step_back_candles : OhlcResolution → ℕ → DateTime → DateTime
step_back_candles r candles t = floor_to_resolution r t - as_minutes r * candles * minute
