-- ===== src/Examples/Funding.antt =====
-- The download of funding settlements at concrete inputs.
use quantoxide.Dates.Funding.{
  ceil_funding_settlement_time, floor_funding_settlement_time, is_valid_funding_settlement_time,
  settlement_c_start,
}
use quantoxide.Prelude.{
  All, Bool-cases, List, [], arith, err, if◌then◌else◌, inl, inr, last?, leb, map, none, not, ok,
  refl, some, suc, true, zero, ℕ, ◌&&◌, ◌*◌, ◌++◌, ◌+◌, ◌<◌, ◌==◌, ◌∷◌, ◌≡◌, ◌≤◌, ◌⊎◌,
}
use quantoxide.Prelude.Int.{◌+ℤ◌, ◌-ℤ◌}
use quantoxide.Prelude.Maps.{hash_get}
use quantoxide.Sync.FundingSettlements.{
  FundingSettlementsState, extend_history, fill_ends, fill_group, funding_range_from,
  funding_range_to, funding_state_new, has_missing, last_gap, latest_missing_group,
  latest_settlements, missing, missing_of, next_settlements_in, next_settlements_range,
  require_first_reached, require_reached, scan_from, scan_missing, scan_to,
}
use quantoxide.Sync.FundingSettlements.Group.{
  IsContiguous, IsCutBefore, latest_missing_group_longest,
}
use quantoxide.Sync.FundingSettlements.Reach.{IsGroupRange, next_settlements_range-IsGroupRange}
use quantoxide.Sync.FundingSettlements.Scan.{QueryLaws, Rising, funding_state_new-ReportsFrom}
use quantoxide.Sync.FundingTask.{
  SettlementStore, TaskConfig, Turn, World, advance, backfill, backfill_loop, backfill_turn,
  check_available, check_settlements, contains_time, evaluate_and_send, evaluate_with_reach,
  fetch_page, finish_turn, get_new_settlements, handle_state_update, insert_settlements, is_synced,
  partial_download, persists,
}
use quantoxide.Sync.FundingTask.Backfill.{OnlyValid, ReturnedIn, StoreLaws, backfill-AtReturn}
use quantoxide.Sync.FundingTask.Exclude.{next_settlements_range-before}
use quantoxide.Sync.FundingTask.Fetch.{IsFirstAnswer, get_new_settlements-IsFirstAnswer}
use quantoxide.Sync.PriceHistory.{is_empty}
use quantoxide.Time.{DateTime, day, hour}

abbrev t1 : DateTime
t1 = settlement_c_start

abbrev t2 : DateTime
t2 = t1 + 8 * hour

abbrev t4 : DateTime
t4 = t2 + 16 * hour

latest_missing_group_longest_example :
    IsContiguous (t4 ∷ [])
    × (((t4 ∷ []) ≡ (t1 ∷ t2 ∷ t4 ∷ [])) ⊎ IsCutBefore (t1 ∷ t2 ∷ t4 ∷ []) (t4 ∷ []))
unfolding last_gap latest_missing_group ◌+ℤ◌ ◌-ℤ◌
latest_missing_group_longest_example =
    latest_missing_group_longest (t1 ∷ t2 ∷ t4 ∷ []) (t4 ∷ []) refl

-- A table that lacks two settlements.
abbrev keep_within : DateTime → DateTime → DateTime → List DateTime → List DateTime
keep_within from to t ts = if leb from t && leb t to then t ∷ ts else ts

abbrev lacking : DateTime → DateTime → List DateTime
lacking from to = keep_within from to t2 (keep_within from to t4 [])

abbrev IsBetween : DateTime → DateTime → DateTime → Type 0
IsBetween from to t = (from ≤ t) × (t ≤ to) × (is_valid_funding_settlement_time t ≡ true)

keep_within-All :
    (from to t : DateTime) (ts : List DateTime)
    → is_valid_funding_settlement_time t ≡ true
    → All (IsBetween from to) ts
    → All (IsBetween from to) (keep_within from to t ts)
keep_within-All from to t ts v h = elim (Bool-cases (leb from t && leb t to)) [
  | inl e ↦ rw e ((ground arith, ground arith, v), h)
  | inr e ↦ rw e h
]

lacking-QueryLaws : QueryLaws lacking
unfolding Rising is_valid_funding_settlement_time
lacking-QueryLaws = record {
  between = λ from to. keep_within-All from to t2 _ refl (keep_within-All from to t4 [] refl tt);
  rising = λ from to. elim (Bool-cases (leb from t2 && leb t2 to)) [
    | inl e ↦ elim (Bool-cases (leb from t4 && leb t4 to)) [
      | inl f ↦ rw (e, f) (omega arith, tt)
      | inr f ↦ rw (e, f) tt
    ]
    | inr e ↦ elim (Bool-cases (leb from t4 && leb t4 to)) [
      | inl f ↦ rw (e, f) tt
      | inr f ↦ rw (e, f) tt
    ]
  ];
}

abbrev some_missing : FundingSettlementsState
some_missing = record {
  reach_time = some t1;
  bounds = some (t1, t4 + 8 * hour);
  missing_times = t2 ∷ t4 ∷ [];
}

funding_state_new-ReportsFrom_example :
    All (λ t. (t1 ≤ t) × (is_valid_funding_settlement_time t ≡ true)) (t2 ∷ t4 ∷ [])
    × All (λ t. t1 ≤ t) (t2 ∷ t4 ∷ [])
unfolding ceil_funding_settlement_time floor_funding_settlement_time funding_state_new
    is_valid_funding_settlement_time missing_of require_first_reached require_reached scan_from
    scan_missing scan_to ◌+ℤ◌ ◌-ℤ◌
funding_state_new-ReportsFrom_example =
    funding_state_new-ReportsFrom lacking lacking-QueryLaws (t4 + 8 * hour) t1 (t4 + 8 * hour)
      (some t1) (some (30 * day)) none some_missing refl

next_settlements_range-IsGroupRange_example : IsGroupRange some_missing (missing t4 t4)
unfolding extend_history fill_ends fill_group last_gap latest_missing_group next_settlements_in
    next_settlements_range require_reached ◌+ℤ◌ ◌-ℤ◌
next_settlements_range-IsGroupRange_example =
    next_settlements_range-IsGroupRange some_missing true (t1, t4 + 8 * hour) (missing t4 t4) t2
      (t4 ∷ []) refl refl refl

next_settlements_range-before_example : t2 < t4
unfolding ceil_funding_settlement_time extend_history fill_ends fill_group
    floor_funding_settlement_time funding_state_new is_valid_funding_settlement_time last_gap
    latest_missing_group missing_of next_settlements_in next_settlements_range require_first_reached
    require_reached scan_from scan_missing scan_to ◌+ℤ◌ ◌-ℤ◌
next_settlements_range-before_example =
    next_settlements_range-before lacking lacking-QueryLaws (t4 + 8 * hour) t4 t2 t2
      (some (t1, t4 + 8 * hour)) (some t1) (some (30 * day))
      record { reach_time = some t1; bounds = some (t1, t4 + 8 * hour); missing_times = t2 ∷ [] }
      true (omega arith) refl refl

-- A table as the list of its times, the earliest last, and an API that fails once.
abbrev latest_in : List DateTime → DateTime
latest_in [] = 0
latest_in (t ∷ ts) = if leb t (latest_in ts) then latest_in ts else t

abbrev keep_absent : List DateTime → DateTime → DateTime → DateTime → List DateTime → List DateTime
keep_absent db from to t ts =
    if (leb from t && leb t to) && not (contains_time t db) then t ∷ ts else ts

abbrev toy_store : SettlementStore
toy_store = record {
  Db = List DateTime;
  FundingSettlement = DateTime;
  ApiError = ℕ;
  settlement_time = λ t. t;
  stored_bounds = λ db. elim (last? db) [ none ↦ none | some first ↦ some (first, latest_in db) ];
  get_missing_settlement_times = λ db from to.
      keep_absent db from to t1 (keep_absent db from to t2 (keep_absent db from to t4 []));
  add_settlements = λ page db. page ++ db;
}

abbrev toy_config : TaskConfig ⦃store = toy_store⦄
toy_config = record {
  funding_settlement_reach = t1;
  rest_api_error_max_trials = 3;
  flag_missing_range = some (30 * day);
}

abbrev toy_turn : Turn ⦃store = toy_store⦄
toy_turn = record {
  answers = λ from to n. elim n [ zero ↦ err 500 | suc i ↦ ok (t2 ∷ t1 ∷ []) ];
  scanned_at = t2;
  rescanned_at = t2;
  ended_at = t2 + hour;
  listens = true;
  listens_again = true;
}

get_new_settlements-IsFirstAnswer_example :
    IsFirstAnswer ⦃store = toy_store⦄ (toy_turn.answers none none) 3 (ok (t2 ∷ t1 ∷ []))
    × (fetch_page ⦃store = toy_store⦄ (toy_turn.answers none none) 3 0 3 ≡ some (ok (t2 ∷ t1 ∷ [])))
unfolding fetch_page funding_range_from funding_range_to get_new_settlements ◌+ℤ◌ ◌-ℤ◌
get_new_settlements-IsFirstAnswer_example =
    get_new_settlements-IsFirstAnswer ⦃store = toy_store⦄ toy_config toy_turn latest_settlements
      (omega arith)

contains_time-append :
    (t : DateTime) (page db : List DateTime)
    → contains_time t (page ++ db) ≡ true
    → (contains_time t db ≡ true) ⊎ (contains_time t (map (λ u. u) page) ≡ true)
unfolding contains_time
contains_time-append t [] db h = inl h
contains_time-append t (u ∷ page) db h = elim (Bool-cases (t == u)) [
  | inl e ↦ inr (rw e refl)
  | inr e ↦ elim (contains_time-append t page db (rw e at h)) [
    | inl old ↦ inl old
    | inr new ↦ inr (rw e new)
  ]
]

abbrev toy_laws : StoreLaws toy_store
toy_laws = record {
  is_stored = λ db t. contains_time t db ≡ true;
  inserted = λ page db t h. contains_time-append t page db h;
}

-- The first turn leaves out a settlement, which the second one brings.
abbrev first_turn : Turn ⦃store = toy_store⦄
first_turn = record toy_turn {
  answers = λ from to n. ok (t4 ∷ t1 ∷ []);
  scanned_at = t4;
  rescanned_at = t4;
  ended_at = t4 + hour;
}

abbrev second_turn : Turn ⦃store = toy_store⦄
second_turn = record first_turn { answers = λ from to n. ok (t2 ∷ []) }

abbrev both_turns : List (Turn ⦃store = toy_store⦄)
both_turns = first_turn ∷ second_turn ∷ []

abbrev filled : World ⦃store = toy_store⦄
filled =
    (backfill ⦃store = toy_store⦄ toy_config t1 true both_turns record { db = []; sent = [] }).0

backfill-AtReturn_example :
    OnlyValid ⦃store = toy_store⦄ toy_laws toy_config filled
    × ReturnedIn ⦃store = toy_store⦄ toy_laws toy_config both_turns filled true
unfolding advance backfill backfill_loop backfill_turn ceil_funding_settlement_time check_available
    check_settlements contains_time evaluate_and_send evaluate_with_reach extend_history fetch_page
    fill_ends fill_group finish_turn floor_funding_settlement_time funding_range_from
    funding_range_to funding_state_new get_new_settlements handle_state_update has_missing hash_get
    insert_settlements is_empty is_synced is_valid_funding_settlement_time last_gap
    latest_missing_group missing_of next_settlements_in next_settlements_range partial_download
    persists require_first_reached require_reached scan_from scan_missing scan_to ◌+ℤ◌ ◌-ℤ◌
backfill-AtReturn_example =
    backfill-AtReturn ⦃store = toy_store⦄ toy_laws toy_config t1 true both_turns
      record { db = []; sent = [] } (λ t h. cc)
