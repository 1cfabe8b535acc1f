-- ===== src/Sync/FundingTask/GivenUp.antt =====
-- The times that a backfill gives up: those that a state it has sent reports as missing.
use quantoxide.Prelude.{
  List, Option, [], inl, inr, none, refl, some, subst, sym, true, ◌++◌, ◌∷◌, ◌≡◌, ◌⊎◌,
}
use quantoxide.Sync.FundingSettlements.{
  FundingDownloadRange, FundingSettlementsState, funding_range_to, latest_settlements, missing,
  settlements_from, settlements_until,
}
use quantoxide.Sync.FundingTask.{SettlementStore, contains_time, persists}
use quantoxide.Time.{DateTime}

-- A time that some state which was sent reports as missing.
abbrev pub ReportedIn : DateTime → List FundingSettlementsState → Type 0
ReportedIn t [] = ⊥
ReportedIn t (s ∷ ss) = (contains_time t s.missing_times ≡ true) ⊎ ReportedIn t ss

pub ReportedIn-append :
    (t : DateTime) (ss us : List FundingSettlementsState)
    → ReportedIn t ss
    → ReportedIn t (ss ++ us)
ReportedIn-append t [] us h = absurd h
ReportedIn-append t (s ∷ ss) us (inl h) = inl h
ReportedIn-append t (s ∷ ss) us (inr h) = inr (ReportedIn-append t ss us h)

pub ReportedIn-last :
    (t : DateTime) (ss : List FundingSettlementsState) (s : FundingSettlementsState)
    → contains_time t s.missing_times ≡ true
    → ReportedIn t (ss ++ (s ∷ []))
ReportedIn-last t [] s h = inl h
ReportedIn-last t (u ∷ ss) s h = inr (ReportedIn-last t ss s h)

-- The time that a scan stops before, if there is one, was reported as missing.
abbrev pub GivenUp : List FundingSettlementsState → Option DateTime → Type 0
GivenUp sent none = Unit
GivenUp sent (some t) = ReportedIn t sent

pub GivenUp-append :
    (sent us : List FundingSettlementsState) (exclude : Option DateTime)
    → GivenUp sent exclude
    → GivenUp (sent ++ us) exclude
GivenUp-append sent us none g = tt
GivenUp-append sent us (some t) g = ReportedIn-append t sent us g

-- A state is the one that was sent last, from a scan of what is stored.
abbrev pub SentLast : List FundingSettlementsState → FundingSettlementsState → Type 0
SentLast sent s = (before : List FundingSettlementsState) × (sent ≡ before ++ (s ∷ []))

module _ ⦃store : SettlementStore⦄ where
  persists-range :
      (range : FundingDownloadRange) (s : FundingSettlementsState)
      → persists range s ≡ true
      → (to : DateTime) × (funding_range_to range ≡ some to)
        × (contains_time to s.missing_times ≡ true)
  unfolding persists funding_range_to
  persists-range (missing from to) s h = (to, refl, h)
  persists-range latest_settlements s h = cc
  persists-range (settlements_from from) s h = cc
  persists-range (settlements_until to) s h = cc

  -- What persists was reported by the state that was sent last.
  pub persisting-GivenUp :
      (range : FundingDownloadRange) (s : FundingSettlementsState)
      (sent : List FundingSettlementsState)
      → persists range s ≡ true
      → SentLast sent s
      → GivenUp sent (funding_range_to range)
  persisting-GivenUp range s sent h (before, e) =
      let (to, range_to, lacks) = persists-range range s h in
      subst (GivenUp sent) (sym range_to)
        (subst (ReportedIn to) (sym e) (ReportedIn-last to before s lacks))
