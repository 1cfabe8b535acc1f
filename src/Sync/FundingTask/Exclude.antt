-- ===== src/Sync/FundingTask/Exclude.antt =====
-- The times that a backfill gives up: why they fall.
use quantoxide.Dates.Funding.{settlement_a_start}
use quantoxide.Dates.Funding.Floor.{floor-IsValid}
use quantoxide.Prelude.{
  All, All-map, Bool, Bool-cases, List, List-cases, Option, Option-cases, [], arith, drop, inl, inr,
  last?, ltb, none, ok, ok_inj, some, some_inj, subst, suc, sym, zero, ℕ, ◌&&◌, ◌+◌, ◌-◌, ◌<◌, ◌==◌,
  ◌∷◌, ◌≡◌, ◌≤◌,
}
use quantoxide.Sync.FundingSettlements.{
  FundingSettlementsState, after_gap, extend_history, fill_group, funding_state_new, last_gap,
  latest_missing_group, missing, missing_of, next_settlements_in, next_settlements_range, scan_from,
  scan_missing, scan_to,
}
use quantoxide.Sync.FundingSettlements.Reach.{
  next_settlements_range-IsGroupRange, next_settlements_range-ok, require_first_reached-ok,
  require_reached-ok,
}
use quantoxide.Sync.FundingSettlements.Scan.{QueryLaws}
use quantoxide.Time.{DateTime, second}

All-drop {ℓ κ} : {A : Type ℓ} (P : A → Type κ) (n : ℕ) (xs : List A) → All P xs → All P (drop n xs)
All-drop P zero xs h = h
All-drop P (suc n) [] h = h
All-drop P (suc n) (x ∷ xs) h = All-drop P n xs h.1

All-last? {ℓ κ} :
    {A : Type ℓ} (P : A → Type κ) (xs : List A) (x : A) → All P xs → last? xs ≡ some x → P x
All-last? P [] x h e = cc
All-last? P (y ∷ []) x h e = subst P (some_inj e) h.0
All-last? P (y ∷ z ∷ xs) x h e = All-last? P (z ∷ xs) x h.1 e

All-latest_missing_group :
    (P : DateTime → Type 0) (ts group : List DateTime)
    → All P ts
    → latest_missing_group ts ≡ some group
    → All P group
unfolding latest_missing_group
All-latest_missing_group P [] group h e = cc
All-latest_missing_group P (t ∷ ts) group h e =
    subst (All P) (some_inj e) (All-drop P (after_gap (last_gap (t ∷ ts))) (t ∷ ts) h)

-- A gap that is filled ends with the last time of the latest group.
next_settlements_range-group :
    (s : FundingSettlementsState) (backfilling : Bool) (from to : DateTime)
    → next_settlements_range s backfilling ≡ ok (missing from to)
    → (group : List DateTime) × (latest_missing_group s.missing_times ≡ some group)
      × (last? group ≡ some to)
unfolding next_settlements_range next_settlements_in latest_missing_group fill_group extend_history
next_settlements_range-group s backfilling from to h = elim (Option-cases s.bounds) [
  | inl e ↦ let nothing_stored = rw e at h in cc
  | inr (bounds, e) ↦ elim (List-cases s.missing_times) [
    | inr (t, ts, lacks) ↦
        let g =
          next_settlements_range-IsGroupRange s backfilling bounds (missing from to) t ts e lacks
            h in
        let same : g.last ≡ to = let filled = g.fetches in cc in
        (g.group, g.is_latest, rw (sym same) g.ends)
    | inl complete ↦
        let extended =
          ok_inj (
            rw complete at
              (next_settlements_range-ok s backfilling bounds (missing from to) e h)) in
        elim (Option-cases s.reach_time) [
          | inl n ↦ let forward = rw n at extended in cc
          | inr (reach, r) ↦ elim (Bool-cases (backfilling && ltb reach bounds.0)) [
            | inl b ↦ let backward = rw (r, b) at extended in cc
            | inr b ↦ let forward = rw (r, b) at extended in cc
          ]
        ]
  ]
]

module _ (query : DateTime → DateTime → List DateTime) (laws : QueryLaws query) where
  -- No time from an excluded one on is reported missing.
  missing_of-before :
      (now earliest latest_time t : DateTime) (range : Option ℕ)
      → settlement_a_start + second ≤ t
      → All (λ u. u < t) (missing_of query now earliest latest_time range (some t))
  unfolding missing_of scan_missing scan_to
  missing_of-before now earliest latest_time t none h = tt
  missing_of-before now earliest latest_time t (some range) h =
      let from = scan_from now earliest range in
      let to = scan_to latest_time (some t) in
      let bound = (floor-IsValid (t - second) (omega (arith, h))).1 in
      elim (Bool-cases (ltb to from)) [
        | inl e ↦ rw e tt
        | inr e ↦ rw e (
            All-map _ (λ u. u < t) (query from to) (λ u k. omega (arith, bound, h, k.1))
              (laws.between from to))
      ]

  missing_times-before :
      (now t : DateTime) (stored : Option (DateTime × DateTime)) (reach : Option DateTime)
      (range : Option ℕ) (s : FundingSettlementsState)
      → settlement_a_start + second ≤ t
      → funding_state_new query now stored reach range (some t) ≡ ok s
      → All (λ u. u < t) s.missing_times
  unfolding funding_state_new
  missing_times-before now t none reach range s h e = rw (sym (ok_inj e)) tt
  missing_times-before now t (some (earliest, latest_time)) reach range s h e =
      elim (Bool-cases (earliest == latest_time)) [
        | inl same ↦ rw (sym (ok_inj (require_reached-ok reach earliest _ s (rw same at e)).0)) tt
        | inr several ↦
            rw (sym (ok_inj (require_first_reached-ok reach _ _ s (rw several at e))))
              (missing_of-before now earliest latest_time t range h)
      ]

  -- If the query gives times between its bounds: once a time has been given up, what is fetched next
  -- to fill a gap ends before it, so each time that is given up is earlier than the one before.
  pub next_settlements_range-before :
      (now t from to : DateTime) (stored : Option (DateTime × DateTime)) (reach : Option DateTime)
      (range : Option ℕ) (s : FundingSettlementsState) (backfilling : Bool)
      → settlement_a_start + second ≤ t
      → funding_state_new query now stored reach range (some t) ≡ ok s
      → next_settlements_range s backfilling ≡ ok (missing from to)
      → to < t
  next_settlements_range-before now t from to stored reach range s backfilling h e k =
      let group = next_settlements_range-group s backfilling from to k in
      All-last? (λ u. u < t) group.0 to
        (All-latest_missing_group (λ u. u < t) s.missing_times group.0
          (missing_times-before now t stored reach range s h e) group.1)
        group.2
