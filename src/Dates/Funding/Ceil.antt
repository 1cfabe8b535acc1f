-- ===== src/Dates/Funding/Ceil.antt =====
-- Rounding a time up to the next funding settlement.
use quantoxide.Dates.Funding.{
  IsOnGrid, IsOnGrid-of_valid, ceil_funding_settlement_time, ceil_phase_a, ceil_phase_bc,
  is_valid_funding_settlement_time, settlement_b_end, settlement_b_start, settlement_c_start,
  valid_of_IsOnGrid,
}
use quantoxide.Dates.Funding.Phases.{by_phase}
use quantoxide.Prelude.{arith, false, true, ◌<◌, ◌≡◌, ◌≤◌, ◌⊎◌}
use quantoxide.Time.{DateTime}

ceil_phase_a-IsOnGrid : (t : DateTime) → t < settlement_b_start → IsOnGrid (ceil_phase_a t)
ceil_phase_a-IsOnGrid t b = ground arith

ceil_phase_bc-IsOnGrid :
    (t : DateTime)
    → settlement_b_start ≤ t
    → (t ≤ settlement_b_end) ⊎ (settlement_c_start ≤ t)
    → IsOnGrid (ceil_phase_bc t)
ceil_phase_bc-IsOnGrid t b o = ground arith

pub ceil-IsValid :
    (t : DateTime)
    → (is_valid_funding_settlement_time (ceil_funding_settlement_time t) ≡ true)
      × (t ≤ ceil_funding_settlement_time t)
unfolding ceil_funding_settlement_time
ceil-IsValid t =
    by_phase (λ u. (is_valid_funding_settlement_time u ≡ true) × (t ≤ u))
      (is_valid_funding_settlement_time t) t t settlement_b_start settlement_c_start
      (ceil_phase_a t) (ceil_phase_bc t) (λ v. (v, omega arith))
      (λ a b. (valid_of_IsOnGrid settlement_b_start (ground arith), omega arith))
      (λ b c. (valid_of_IsOnGrid settlement_c_start (ground arith), omega arith))
      (λ v b. (valid_of_IsOnGrid (ceil_phase_a t) (ceil_phase_a-IsOnGrid t b), ground arith))
      (λ v b o. (valid_of_IsOnGrid (ceil_phase_bc t) (ceil_phase_bc-IsOnGrid t b o), ground arith))

ceil_phase_a-least :
    (t u : DateTime) → t < u → t < settlement_b_start → IsOnGrid u → ceil_phase_a t ≤ u
ceil_phase_a-least t u le b g = ground arith

ceil_phase_bc-least :
    (t u : DateTime)
    → t < u
    → settlement_b_start ≤ t
    → (t ≤ settlement_b_end) ⊎ (settlement_c_start ≤ t)
    → IsOnGrid u
    → (u ≤ settlement_b_end) ⊎ (settlement_c_start ≤ u)
    → ceil_phase_bc t ≤ u
ceil_phase_bc-least t u le b s g o = ground arith

strict :
    (t u : DateTime)
    → t ≤ u
    → is_valid_funding_settlement_time u ≡ true
    → is_valid_funding_settlement_time t ≡ false
    → t < u
strict t u le v n = grind arith

ceil_below :
    (t u : DateTime)
    → t ≤ u
    → is_valid_funding_settlement_time u ≡ true
    → (u ≤ settlement_b_end) ⊎ (settlement_c_start ≤ u)
    → ceil_funding_settlement_time t ≤ u
unfolding ceil_funding_settlement_time
ceil_below t u le v o =
    let g = IsOnGrid-of_valid u v in
    by_phase (λ w. w ≤ u) (is_valid_funding_settlement_time t) t t settlement_b_start
      settlement_c_start (ceil_phase_a t) (ceil_phase_bc t) (λ n. le) (λ a b. ground arith)
      (λ b c. ground arith) (λ n b. ceil_phase_a-least t u (strict t u le v n) b g)
      (λ n b s. ceil_phase_bc-least t u (strict t u le v n) b s g o)

-- Outside the gap from the end of phase B to the start of phase C: where there is a settlement time
-- `u` not before a time, `ceil_funding_settlement_time` gives a settlement time, not before the time
-- and not after `u`. So it gives the first one.
pub ceil-least :
    (t u : DateTime)
    → t ≤ u
    → is_valid_funding_settlement_time u ≡ true
    → (u ≤ settlement_b_end) ⊎ (settlement_c_start ≤ u)
    → (is_valid_funding_settlement_time (ceil_funding_settlement_time t) ≡ true)
      × (t ≤ ceil_funding_settlement_time t)
      × (ceil_funding_settlement_time t ≤ u)
ceil-least t u le v o = let valid = ceil-IsValid t in (valid.0, valid.1, ceil_below t u le v o)
