-- ===== src/Sync/FundingSettlements/Scan.antt =====
-- Which settlements are reported missing.
use quantoxide.Dates.Funding.{is_valid_funding_settlement_time}
use quantoxide.Dates.Funding.Ceil.{ceil-IsValid}
use quantoxide.Prelude.{
  All, All-map, Bool-cases, List, Option, Result, [], arith, err_absurd, head?, if◌then◌else◌, inl,
  inr, leb, ltb, none, ok, ok_inj, some, subst, true, ℕ, ◌-◌, ◌<◌, ◌==◌, ◌∷◌, ◌≡◌, ◌≤◌,
}
use quantoxide.Sync.FundingSettlements.{
  FundingSettlementsState, SyncFundingSettlementsFatalError, funding_state_new, missing_of,
  require_first_reached, require_reached, scan_from, scan_missing, scan_to,
}
use quantoxide.Time.{DateTime}

-- What the program relies on in the query: it gives settlement times between the two it is given,
-- the earlier first.
unfoldable pub Rising : List DateTime → Type 0
Rising [] = Unit
Rising (a ∷ []) = Unit
Rising (a ∷ b ∷ ts) = (a < b) × Rising (b ∷ ts)

pub record QueryLaws (query : DateTime → DateTime → List DateTime) : Type 0 where
  pub between :
      (from to : DateTime)
      → All
          (λ t. (from ≤ t) × (t ≤ to) × (is_valid_funding_settlement_time t ≡ true))
          (query from to)
  pub rising : (from to : DateTime) → Rising (query from to)

Rising-bound :
    (bound first : DateTime) (ts : List DateTime)
    → bound ≤ first
    → Rising (first ∷ ts)
    → All (λ t. bound ≤ t) (first ∷ ts)
unfolding Rising
Rising-bound bound first [] h k = (h, tt)
Rising-bound bound first (t ∷ ts) h k = (h, Rising-bound bound t ts (omega (arith, k.0)) k.1)

-- A missing time is a settlement time from the earliest stored one to the present.
abbrev IsMissing : DateTime → DateTime → Type 0
IsMissing earliest t = (earliest ≤ t) × (is_valid_funding_settlement_time t ≡ true)

abbrev FromReach : Option DateTime → List DateTime → Type 0
FromReach none ts = Unit
FromReach (some reach) ts = All (λ t. reach ≤ t) ts

FromReach-nil : (reach : Option DateTime) → FromReach reach []
FromReach-nil none = tt
FromReach-nil (some reach) = tt

module _ (query : DateTime → DateTime → List DateTime) (laws : QueryLaws query) where
  scan_from_bound : (now earliest range : DateTime) → earliest ≤ scan_from now earliest range
  unfolding scan_from
  scan_from_bound now earliest range =
      let t : DateTime = if leb earliest (now - range) then now - range else earliest in
      let bound : earliest ≤ t = ground arith in omega (arith, bound, (ceil-IsValid t).1)

  missing_of-IsMissing :
      (now earliest latest_time : DateTime) (range : Option ℕ) (exclude : Option DateTime)
      → All (IsMissing earliest) (missing_of query now earliest latest_time range exclude)
        × Rising (missing_of query now earliest latest_time range exclude)
  unfolding missing_of scan_missing Rising
  missing_of-IsMissing now earliest latest_time none exclude = (tt, tt)
  missing_of-IsMissing now earliest latest_time (some range) exclude =
      let from = scan_from now earliest range in
      let to = scan_to latest_time exclude in
      let bound = scan_from_bound now earliest range in
      elim (Bool-cases (ltb to from)) [
        | inl e ↦ rw e (tt, tt)
        | inr e ↦ rw e (
          All-map _ (IsMissing earliest) (query from to) (λ t h. (omega (arith, bound, h.0), h.2))
              (laws.between from to),
          laws.rising from to,
        )
      ]

  first_reached :
      (reach : Option DateTime) (ts : List DateTime)
      (r : Result FundingSettlementsState SyncFundingSettlementsFatalError)
      (s : FundingSettlementsState)
      → Rising ts
      → require_first_reached reach (head? ts) r ≡ ok s
      → (r ≡ ok s) × FromReach reach ts
  unfolding require_first_reached require_reached
  first_reached none [] r s k h = (h, tt)
  first_reached none (t ∷ ts) r s k h = (h, tt)
  first_reached (some reach) [] r s k h = (h, tt)
  first_reached (some reach) (t ∷ ts) r s k h = elim (Bool-cases (ltb t reach)) [
    | inl e ↦ err_absurd (rw e at h)
    | inr e ↦ (rw e at h, Rising-bound reach t ts (ground arith) k)
  ]

  single_reached :
      (reach : Option DateTime) (t : DateTime) (x s : FundingSettlementsState)
      → require_reached reach t (ok x) ≡ ok s
      → x ≡ s
  unfolding require_reached
  single_reached none t x s h = ok_inj h
  single_reached (some reach) t x s h = elim (Bool-cases (ltb t reach)) [
    | inl e ↦ err_absurd (rw e at h)
    | inr e ↦ ok_inj (rw e at h)
  ]

  -- What is reported missing are settlement times that are not before the earliest stored one.
  abbrev pub ReportsFrom : DateTime → Option DateTime → FundingSettlementsState → Type 0
  ReportsFrom earliest reach s =
      All (IsMissing earliest) s.missing_times × FromReach reach s.missing_times

  -- If the query gives settlement times between its bounds in rising order: a state that is built over
  -- a database that is not empty reports as missing settlement times only, none before the earliest
  -- stored one and, where there is a reach time, none before that.
  pub funding_state_new-ReportsFrom :
      (now earliest latest_time : DateTime) (reach : Option DateTime) (range : Option ℕ)
      (exclude : Option DateTime) (s : FundingSettlementsState)
      → funding_state_new query now (some (earliest, latest_time)) reach range exclude ≡ ok s
      → ReportsFrom earliest reach s
  unfolding funding_state_new
  funding_state_new-ReportsFrom now earliest latest_time reach range exclude s h =
      elim (Bool-cases (earliest == latest_time)) [
        | inl e ↦
            subst (ReportsFrom earliest reach) (single_reached reach earliest _ s (rw e at h))
              (tt, FromReach-nil reach)
        | inr e ↦
            let m = missing_of-IsMissing now earliest latest_time range exclude in
            let r =
              first_reached reach (missing_of query now earliest latest_time range exclude) _ s m.1
                (rw e at h) in
            subst (ReportsFrom earliest reach) (ok_inj r.0) (m.0, r.1)
      ]
