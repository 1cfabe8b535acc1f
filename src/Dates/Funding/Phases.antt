-- ===== src/Dates/Funding/Phases.antt =====
-- The cases that `ceil_funding_settlement_time` and `floor_funding_settlement_time` share.
use quantoxide.Dates.Funding.{
  settlement_a_end, settlement_b_end, settlement_b_start, settlement_c_start,
}
use quantoxide.Prelude.{
  Bool, Bool-cases, arith, false, if◌then◌else◌, inl, inr, ltb, refl, true, ◌&&◌, ◌<◌, ◌≡◌, ◌≤◌,
  ◌⊎◌,
}
use quantoxide.Time.{DateTime}

-- A predicate on the result, from one proof for each of the five returns.
pub by_phase :
    (P : DateTime → Type 0) (valid : Bool) (t a b c d e : DateTime)
    → (valid ≡ true → P a)
    → (settlement_a_end < t → t < settlement_b_start → P b)
    → (settlement_b_end < t → t < settlement_c_start → P c)
    → (valid ≡ false → t < settlement_b_start → P d)
    → (valid ≡ false
        → settlement_b_start ≤ t
        → (t ≤ settlement_b_end) ⊎ (settlement_c_start ≤ t)
        → P e)
    → P (
        if valid
        then a
        else if ltb settlement_a_end t && ltb t settlement_b_start
        then b
        else if ltb settlement_b_end t && ltb t settlement_c_start
        then c
        else if ltb t settlement_b_start
        then d
        else e)
by_phase P true t a b c d e ka kb kc kd ke = ka refl
by_phase P false t a b c d e ka kb kc kd ke =
    elim (Bool-cases (ltb settlement_a_end t && ltb t settlement_b_start)) [
      | inl ab ↦ rw ab (kb (ground arith) (ground arith))
      | inr not_ab ↦
          rw not_ab (elim (Bool-cases (ltb settlement_b_end t && ltb t settlement_c_start)) [
            | inl bc ↦ rw bc (kc (ground arith) (ground arith))
            | inr not_bc ↦ rw not_bc (elim (Bool-cases (ltb t settlement_b_start)) [
              | inl early ↦ rw early (kd refl (ground arith))
              | inr late ↦ rw late (ke refl (ground arith) (ground arith))
            ])
          ])
    ]
