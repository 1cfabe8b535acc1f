-- ===== src/Dates/Funding/Floor.antt =====
-- Rounding a time down to the last funding settlement.
use quantoxide.Dates.Funding.{
  IsOnGrid, IsOnGrid-of_valid, floor_funding_settlement_time, floor_phase_a, floor_slot,
  is_valid_funding_settlement_time, next_slot, phase_offset_of, settlement_a_end,
  settlement_a_start, settlement_b_end, settlement_b_start, settlement_c_start, valid_of_IsOnGrid,
}
use quantoxide.Dates.Funding.Phases.{by_phase}
use quantoxide.Prelude.{arith, true, ◌<◌, ◌≡◌, ◌≤◌, ◌⊎◌}
use quantoxide.Time.{DateTime}

floor-IsBefore : (t : DateTime) → settlement_a_start ≤ t → floor_funding_settlement_time t ≤ t
unfolding floor_funding_settlement_time
floor-IsBefore t h = ground arith

abbrev floor_phase_bc : DateTime → DateTime
floor_phase_bc t = floor_slot (next_slot (phase_offset_of t) t) t

floor_phase_a-IsOnGrid :
    (t : DateTime) → settlement_a_start ≤ t → t < settlement_b_start → IsOnGrid (floor_phase_a t)
floor_phase_a-IsOnGrid t s b = ground arith

floor_phase_bc-IsOnGrid :
    (t : DateTime)
    → settlement_b_start ≤ t
    → (t ≤ settlement_b_end) ⊎ (settlement_c_start ≤ t)
    → IsOnGrid (floor_phase_bc t)
floor_phase_bc-IsOnGrid t b o = ground arith

floor_phase_a-greatest :
    (t u : DateTime) → u ≤ t → t < settlement_b_start → IsOnGrid u → u ≤ floor_phase_a t
floor_phase_a-greatest t u le b g = ground arith

floor_phase_bc-greatest :
    (t u : DateTime)
    → u ≤ t
    → settlement_b_start ≤ t
    → (t ≤ settlement_b_end) ⊎ (settlement_c_start ≤ t)
    → IsOnGrid u
    → u ≤ floor_phase_bc t
floor_phase_bc-greatest t u le b o g = ground arith

pub floor-IsValid :
    (t : DateTime)
    → settlement_a_start ≤ t
    → (is_valid_funding_settlement_time (floor_funding_settlement_time t) ≡ true)
      × (floor_funding_settlement_time t ≤ t)
unfolding floor_funding_settlement_time
floor-IsValid t s =
    by_phase (λ u. (is_valid_funding_settlement_time u ≡ true) × (u ≤ t))
      (is_valid_funding_settlement_time t) t t settlement_a_end settlement_b_end (floor_phase_a t)
      (floor_phase_bc t) (λ v. (v, omega arith))
      (λ a b. (valid_of_IsOnGrid settlement_a_end (ground arith), omega arith))
      (λ b c. (valid_of_IsOnGrid settlement_b_end (ground arith), omega arith))
      (λ v b. (valid_of_IsOnGrid (floor_phase_a t) (floor_phase_a-IsOnGrid t s b), ground arith))
      (λ v b o.
        (valid_of_IsOnGrid (floor_phase_bc t) (floor_phase_bc-IsOnGrid t b o), ground arith))

floor_above :
    (t u : DateTime)
    → u ≤ t
    → is_valid_funding_settlement_time u ≡ true
    → (u ≤ settlement_b_end) ⊎ (settlement_c_start ≤ u)
    → u ≤ floor_funding_settlement_time t
unfolding floor_funding_settlement_time
floor_above t u le v o =
    let g = IsOnGrid-of_valid u v in
    by_phase (λ w. u ≤ w) (is_valid_funding_settlement_time t) t t settlement_a_end settlement_b_end
      (floor_phase_a t) (floor_phase_bc t) (λ n. le) (λ a b. ground arith) (λ b c. ground arith)
      (λ n b. floor_phase_a-greatest t u le b g) (λ n b s. floor_phase_bc-greatest t u le b s g)

-- From the first settlement on, and outside the gap from the end of phase B to the start of phase C:
-- where there is a settlement time `u` not after a time, `floor_funding_settlement_time` gives a settlement time, not after the time
-- and not before `u`. So it gives the last one.
pub floor-greatest :
    (t u : DateTime)
    → settlement_a_start ≤ t
    → u ≤ t
    → is_valid_funding_settlement_time u ≡ true
    → (u ≤ settlement_b_end) ⊎ (settlement_c_start ≤ u)
    → (is_valid_funding_settlement_time (floor_funding_settlement_time t) ≡ true)
      × (floor_funding_settlement_time t ≤ t)
      × (u ≤ floor_funding_settlement_time t)
floor-greatest t u start le v o =
    let valid = floor-IsValid t start in (valid.0, valid.1, floor_above t u le v o)
