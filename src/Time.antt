-- ===== src/Time.antt =====
-- `chrono::DateTime<Utc>` as the number of nanoseconds since `DateTime::<Utc>::MIN_UTC`, which is
-- the midnight that begins the year -262143. Every instant is such a number, so hours, minutes
-- and seconds of a day are remainders. Leap seconds are left out.
use quantoxide.Prelude.{ℕ, ◌*◌, ◌+◌, ◌-◌}

abbrev pub DateTime : Type 0
DateTime = ℕ

-- Durations, in nanoseconds.
abbrev pub second : ℕ
second = 1000000000

abbrev pub minute : ℕ
minute = 60000000000

abbrev pub hour : ℕ
hour = 3600000000000

abbrev pub day : ℕ
day = 86400000000000

-- 1970-01-01, in seconds and in nanoseconds since `MIN_UTC`.
abbrev pub unix_epoch_secs : ℕ
unix_epoch_secs = 96465292 * 86400

abbrev pub unix_epoch : DateTime
unix_epoch = 96465292 * 86400000000000

abbrev pub min_utc : DateTime
min_utc = 0

-- The last nanosecond of the year 262142.
abbrev pub max_utc : DateTime
max_utc = (96465292 + 95026236 + 1) * 86400000000000 - 1
