-- ===== src/Dates/Funding.antt =====
-- src/util/dates/mod.rs: the times of funding settlements, with the constants of
-- src/sync/process/sync_funding_settlements_task/mod.rs.
pub mod Ceil
pub mod Floor
pub mod Phases
use quantoxide.Dates.{hour_of, midnight, minute_of, nanosecond_of, second_of}
use quantoxide.Prelude.{
  Bool, arith, if◌then◌else◌, leb, ltb, true, ℕ, ◌%◌, ◌&&◌, ◌*◌, ◌+◌, ◌-◌, ◌/◌, ◌<◌, ◌==◌, ◌≡◌, ◌≤◌,
  ◌⊎◌,
}
use quantoxide.Time.{DateTime, day, hour}

-- 2021-01-11 08:00, 2021-12-07 08:00 and 20:00, 2025-04-11 04:00 and 16:00.
abbrev pub settlement_a_start : DateTime
settlement_a_start = (96465292 + 18638) * 86400000000000 + 8 * 3600000000000

abbrev pub settlement_a_end : DateTime
settlement_a_end = (96465292 + 18968) * 86400000000000 + 8 * 3600000000000

abbrev pub settlement_b_start : DateTime
settlement_b_start = (96465292 + 18968) * 86400000000000 + 20 * 3600000000000

abbrev pub settlement_b_end : DateTime
settlement_b_end = (96465292 + 20189) * 86400000000000 + 4 * 3600000000000

abbrev pub settlement_c_start : DateTime
settlement_c_start = (96465292 + 20189) * 86400000000000 + 16 * 3600000000000

-- `LNM_SETTLEMENT_INTERVAL_8H.num_hours()`
abbrev pub interval_8h : ℕ
interval_8h = 8

abbrev pub is_clean : DateTime → Bool
is_clean t = minute_of t == 0 && second_of t == 0 && nanosecond_of t == 0

unfoldable pub is_valid_funding_settlement_time : DateTime → Bool
is_valid_funding_settlement_time t =
    if ltb t settlement_b_start
    then is_clean t && hour_of t == 8
    else if ltb t settlement_c_start
    then is_clean t && hour_of t % interval_8h == 4
    else is_clean t && hour_of t % interval_8h == 0

-- `((hour - phase_offset).div_euclid(interval) + 1) * interval + phase_offset`, never negative.
abbrev pub next_slot : ℕ → DateTime → ℕ
next_slot phase_offset t =
    (hour_of t + interval_8h - phase_offset) / interval_8h * interval_8h + phase_offset

abbrev pub phase_offset_of : DateTime → ℕ
phase_offset_of t = if ltb t settlement_c_start then 4 else 0

abbrev pub ceil_phase_a : DateTime → DateTime
ceil_phase_a t =
    let base = midnight t + 8 * hour in
    let result = (if leb t base then base else base + 24 * hour) in
    if ltb settlement_a_end result then settlement_b_start else result

abbrev pub ceil_slot : ℕ → ℕ → DateTime → DateTime
ceil_slot phase_offset slot t =
    if leb 24 slot then midnight t + (24 + phase_offset) * hour else midnight t + slot * hour

abbrev pub ceil_phase_bc : DateTime → DateTime
ceil_phase_bc t =
    let result = ceil_slot (phase_offset_of t) (next_slot (phase_offset_of t) t) t in
    if ltb settlement_b_end result && ltb result settlement_c_start
    then settlement_c_start
    else result

unfoldable pub ceil_funding_settlement_time : DateTime → DateTime
ceil_funding_settlement_time t =
    if is_valid_funding_settlement_time t
    then t
    else if ltb settlement_a_end t && ltb t settlement_b_start
    then settlement_b_start
    else if ltb settlement_b_end t && ltb t settlement_c_start
    then settlement_c_start
    else if ltb t settlement_b_start
    then ceil_phase_a t
    else ceil_phase_bc t

abbrev pub floor_phase_a : DateTime → DateTime
floor_phase_a t = let base = midnight t + 8 * hour in if leb base t then base else base - 24 * hour

-- `slot` is `next_slot` less the interval; below 0 it is a slot of the day before.
abbrev pub floor_slot : ℕ → DateTime → DateTime
floor_slot next t =
    if ltb next interval_8h
    then midnight t - day + (24 + next - interval_8h) * hour
    else midnight t + (next - interval_8h) * hour

unfoldable pub floor_funding_settlement_time : DateTime → DateTime
floor_funding_settlement_time t =
    if is_valid_funding_settlement_time t
    then t
    else if ltb settlement_a_end t && ltb t settlement_b_start
    then settlement_a_end
    else if ltb settlement_b_end t && ltb t settlement_c_start
    then settlement_b_end
    else if ltb t settlement_b_start
    then floor_phase_a t
    else floor_slot (next_slot (phase_offset_of t) t) t

-- The three grids as residues.
abbrev pub IsOnGrid : DateTime → Type 0
IsOnGrid u =
    (u < settlement_b_start × (u % day ≡ 8 * hour))
    ⊎ ((settlement_b_start ≤ u × u < settlement_c_start × (u % (8 * hour) ≡ 4 * hour))
        ⊎ (settlement_c_start ≤ u × (u % (8 * hour) ≡ 0)))

pub IsOnGrid-of_valid : (u : DateTime) → is_valid_funding_settlement_time u ≡ true → IsOnGrid u
unfolding is_valid_funding_settlement_time
IsOnGrid-of_valid u h = ground arith

pub valid_of_IsOnGrid : (u : DateTime) → IsOnGrid u → is_valid_funding_settlement_time u ≡ true
unfolding is_valid_funding_settlement_time
valid_of_IsOnGrid u h = ground arith
