-- ===== src/Sync/FundingSettlements/Reach.antt =====
-- What is fetched next, against the test for missing settlements.
use quantoxide.Prelude.{
  Bool, Bool-cases, List, List-cases, Option, Option-cases, Result, [], ap, arith, err_absurd,
  false, head?, inl, inr, last?, ltb, none, not, ok, ok_inj, refl, some, sym, true, ℕ, ◌==◌, ◌∷◌,
  ◌≡◌, ◌≤◌,
}
use quantoxide.Sync.FundingSettlements.{
  FundingDownloadRange, FundingSettlementsState, SyncFundingSettlementsFatalError, extend_history,
  fill_ends, fill_group, funding_state_new, has_missing, latest_missing_group, latest_settlements,
  missing, next_settlements_in, next_settlements_range, require_first_reached, require_reached,
  settlements_from, settlements_until,
}
use quantoxide.Sync.FundingSettlements.Group.{latest_missing_group_longest}
use quantoxide.Sync.PriceHistory.{is_empty}
use quantoxide.Time.{DateTime}

abbrev pub extends_forward : FundingDownloadRange → Bool
extends_forward latest_settlements = false
extends_forward (settlements_from from) = true
extends_forward (settlements_until to) = false
extends_forward (missing from to) = false

abbrev pub NotBefore : Option DateTime → DateTime → Type 0
NotBefore none t = Unit
NotBefore (some reach) t = reach ≤ t

-- A group that is fetched: from its first to its last time, none before the reach time.
pub record IsGroupRange (s : FundingSettlementsState) (x : FundingDownloadRange) : Type 0 where
  pub group : List DateTime
  pub first : DateTime
  pub last : DateTime
  pub is_latest : latest_missing_group s.missing_times ≡ some group
  pub begins : head? group ≡ some first
  pub ends : last? group ≡ some last
  pub fetches : x ≡ missing first last
  pub reachable : NotBefore s.reach_time first

pub require_reached-ok {ℓ} :
    {A : Type ℓ} (o : Option DateTime) (t : DateTime)
    (r : Result A SyncFundingSettlementsFatalError) (x : A)
    → require_reached o t r ≡ ok x
    → (r ≡ ok x) × NotBefore o t
unfolding require_reached
require_reached-ok none t r x h = (h, tt)
require_reached-ok (some b) t r x h = elim (Bool-cases (ltb t b)) [
  | inl e ↦ err_absurd (rw e at h)
  | inr e ↦ (rw e at h, ground arith)
]

-- A list that is not empty has a last time, and its latest group is not empty.
last?-cons : (t : DateTime) (ts : List DateTime) → (x : DateTime) × (last? (t ∷ ts) ≡ some x)
last?-cons t [] = (t, refl)
last?-cons t (u ∷ ts) = last?-cons u ts

abbrev BeginsWith : List DateTime → Type 0
BeginsWith group = (first : DateTime) × (others : List DateTime) × (group ≡ first ∷ others)

latest_missing_group-BeginsWith :
    (t : DateTime) (ts group : List DateTime)
    → latest_missing_group (t ∷ ts) ≡ some group
    → BeginsWith group
latest_missing_group-BeginsWith t ts group h =
    elim (latest_missing_group_longest (t ∷ ts) group h).1 [
      | inl e ↦ (t, ts, e)
      | inr c ↦ (c.first, c.others, c.begins)
    ]

module _ (s : FundingSettlementsState) (backfilling : Bool) (bounds : DateTime × DateTime)
    (x : FundingDownloadRange) where
  fill_group-IsGroupRange :
      (group : List DateTime)
      → latest_missing_group s.missing_times ≡ some group
      → BeginsWith group
      → fill_group s.reach_time backfilling bounds (some group) ≡ ok x
      → IsGroupRange s x
  unfolding fill_group fill_ends
  fill_group-IsGroupRange group e (first, others, starts) h =
      let end = last?-cons first others in
      let done =
        require_reached-ok s.reach_time first (ok (missing first end.0)) x
          (rw (starts, end.1) at h) in
      record {
        group = group;
        first = first;
        last = end.0;
        is_latest = e;
        begins = rw starts refl;
        ends = rw starts end.1;
        fetches = sym (ok_inj done.0);
        reachable = done.1;
      }

  -- Past its first test the choice is that of `fill_group`.
  pub next_settlements_range-ok :
      s.bounds ≡ some bounds
      → next_settlements_range s backfilling ≡ ok x
      → fill_group s.reach_time backfilling bounds (latest_missing_group s.missing_times) ≡ ok x
  unfolding next_settlements_range next_settlements_in
  next_settlements_range-ok stored h = elim (Bool-cases (bounds.0 == bounds.1)) [
    | inl e ↦ (require_reached-ok s.reach_time bounds.0 _ x (rw (stored, e) at h)).0
    | inr e ↦ rw (stored, e) at h
  ]

  -- Where a database that is not empty misses settlements, the next download that is chosen is the
  -- latest group of them, from its first to its last time, and does not begin before the reach time.
  pub next_settlements_range-IsGroupRange :
      (t : DateTime) (ts : List DateTime)
      → s.bounds ≡ some bounds
      → s.missing_times ≡ t ∷ ts
      → next_settlements_range s backfilling ≡ ok x
      → IsGroupRange s x
  unfolding latest_missing_group
  next_settlements_range-IsGroupRange t ts stored lacks h =
      elim (Option-cases (latest_missing_group s.missing_times)) [
        | inl e ↦ let grouped = rw lacks at e in cc
        | inr (group, e) ↦
            fill_group-IsGroupRange group e
              (latest_missing_group-BeginsWith t ts group (rw lacks at e))
              (rw e at (next_settlements_range-ok stored h))
      ]

-- Where a reach time is set and the history is extended backwards, the choice of what is fetched next
-- extends the history forward exactly where the test for missing settlements is false.
next_settlements_range-has_missing :
    (s : FundingSettlementsState) (reach : DateTime) (x : FundingDownloadRange)
    → s.reach_time ≡ some reach
    → next_settlements_range s true ≡ ok x
    → has_missing s ≡ ok (not (extends_forward x))
unfolding has_missing next_settlements_range next_settlements_in fill_group extend_history
    latest_missing_group is_empty
next_settlements_range-has_missing s reach x at_reach h = elim (Option-cases s.bounds) [
  | inl none_stored ↦
      let same = ok_inj (rw none_stored at h) in rw (at_reach, none_stored, sym same) refl
  | inr (bounds, stored) ↦ elim (List-cases s.missing_times) [
    | inl complete ↦
        let done =
          rw (complete, at_reach) at (next_settlements_range-ok s true bounds x stored h) in
        elim (Bool-cases (ltb reach bounds.0)) [
          | inl e ↦
              let same = ok_inj (rw e at done) in rw (at_reach, stored, complete, sym same, e) refl
          | inr e ↦
              let same = ok_inj (rw e at done) in rw (at_reach, stored, complete, sym same, e) refl
        ]
    | inr (t, ts, lacks) ↦
        let group = next_settlements_range-IsGroupRange s true bounds x t ts stored lacks h in
        rw (at_reach, stored, lacks, group.fetches) refl
  ]
]

pub require_first_reached-ok {ℓ} :
    {A : Type ℓ} (o first : Option DateTime) (r : Result A SyncFundingSettlementsFatalError) (x : A)
    → require_first_reached o first r ≡ ok x
    → r ≡ ok x
unfolding require_first_reached
require_first_reached-ok o none r x h = h
require_first_reached-ok o (some t) r x h = (require_reached-ok o t r x h).0

-- A state has the bounds and the reach time that it is built from.
pub funding_state_new-bounds :
    (query : DateTime → DateTime → List DateTime) (now : DateTime)
    (stored : Option (DateTime × DateTime)) (reach : Option DateTime) (range : Option ℕ)
    (exclude : Option DateTime) (s : FundingSettlementsState)
    → funding_state_new query now stored reach range exclude ≡ ok s
    → (s.bounds ≡ stored) × (s.reach_time ≡ reach)
unfolding funding_state_new
funding_state_new-bounds query now none reach range exclude s h = rw (sym (ok_inj h)) (refl, refl)
funding_state_new-bounds query now (some (earliest, latest_time)) reach range exclude s h =
    elim (Bool-cases (earliest == latest_time)) [
      | inl e ↦
          let same = ok_inj (require_reached-ok reach earliest _ s (rw e at h)).0 in
          let only : earliest ≡ latest_time = ground arith in
          rw (sym same) (ap (λ t. some (earliest, t)) only, refl)
      | inr e ↦
          let same = ok_inj (require_first_reached-ok reach _ _ s (rw e at h)) in
          rw (sym same) (refl, refl)
    ]

-- Where the test for missing settlements is false, the history begins at the reach time or before,
-- and no time is missing in it.
pub has_missing-false :
    (s : FundingSettlementsState) (reach : DateTime)
    → s.reach_time ≡ some reach
    → has_missing s ≡ ok false
    → (bounds : DateTime × DateTime) × (s.bounds ≡ some bounds)
      × (bounds.0 ≤ reach)
      × (s.missing_times ≡ [])
unfolding has_missing is_empty
has_missing-false s reach at_reach h = elim (Option-cases s.bounds) [
  | inl e ↦ let none_missing = ok_inj (rw (at_reach, e) at h) in cc
  | inr (bounds, e) ↦ elim (List-cases s.missing_times) [
    | inl complete ↦
        let early : ltb reach bounds.0 ≡ false = ok_inj (rw (at_reach, e, complete) at h) in
        (bounds, e, ground arith, complete)
    | inr (t, ts, lacks) ↦ let none_missing = ok_inj (rw (at_reach, e, lacks) at h) in cc
  ]
]
