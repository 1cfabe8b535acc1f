-- ===== src/Sync/PriceHistory.antt =====
-- src/sync/process/sync_price_history_task/price_history_state.rs. The queries of the database are
-- arguments; the expected value of the latest candle time is one.
pub mod Range
pub mod Reach
use quantoxide.Prelude.{
  Bool, List, Option, Result, [], err, false, head?, if◌then◌else◌, last?, leb, ltb, none, not, ok,
  some, true, ◌&&◌, ◌==◌, ◌||◌, ◌∷◌,
}
use quantoxide.Prelude.Int.{pos, ℤ, ◌-ℤ◌}
use quantoxide.Time.{DateTime}

pub data DownloadRange : Type 0 where
  latest : DownloadRange
  upper_bound : DateTime → DownloadRange
  lower_bound : DateTime → DownloadRange
  gap : DateTime → DateTime → DownloadRange

pub data SyncPriceHistoryFatalError : Type 0 where
  api_candles_times_not_rounded_to_minute : SyncPriceHistoryFatalError
  api_candles_not_ordered_by_time_desc : DateTime → SyncPriceHistoryFatalError
  api_candles_not_available_before_history_start : DateTime → SyncPriceHistoryFatalError
  unreachable_db_gap : DateTime → DateTime → SyncPriceHistoryFatalError
  invalid_price_history_state_range : DateTime → DateTime → SyncPriceHistoryFatalError
  price_history_state_reach_not_set : SyncPriceHistoryFatalError
  lookback_exceeds_price_history_reach : DateTime → DateTime → SyncPriceHistoryFatalError

pub record PriceHistoryState : Type 0 where
  pub reach_time : Option DateTime
  pub bounds : Option (DateTime × DateTime)
  pub gaps : List (DateTime × DateTime)

-- `reach_time.is_some_and(|reach_time| time < reach_time)`, with the reach time of the error.
unfoldable pub before_reach : Option DateTime → DateTime → Option DateTime
before_reach none time = none
before_reach (some reach) time = if ltb time reach then some reach else none

-- The error where a time lies before the reach time.
unfoldable pub check_reach {ℓ} :
    {A : Type ℓ}
    → DateTime
    → Option DateTime
    → Result A SyncPriceHistoryFatalError
    → Result A SyncPriceHistoryFatalError
check_reach time none r = r
check_reach time (some reach) r = err (unreachable_db_gap time reach)

unfoldable pub check_first_gap {ℓ} :
    {A : Type ℓ}
    → Option DateTime
    → Option (DateTime × DateTime)
    → Result A SyncPriceHistoryFatalError
    → Result A SyncPriceHistoryFatalError
check_first_gap reach none r = r
check_first_gap reach (some (from, to)) r = check_reach from (before_reach reach from) r

-- `new` from the earliest candle time, the latest and the gaps of the database.
unfoldable pub history_new :
    Option DateTime
    → Option (DateTime × DateTime)
    → List (DateTime × DateTime)
    → Result PriceHistoryState SyncPriceHistoryFatalError
history_new reach none db_gaps = ok record { reach_time = reach; bounds = none; gaps = [] }
history_new reach (some (earliest, lastest)) db_gaps =
    if earliest == lastest
    then check_reach earliest (before_reach reach earliest)
        (ok record { reach_time = reach; bounds = some (earliest, earliest); gaps = [] })
    else check_first_gap reach (head? db_gaps)
        (ok record { reach_time = reach; bounds = some (earliest, lastest); gaps = db_gaps })

pub overlaps : DateTime → DateTime → DateTime × DateTime → Bool
overlaps range_from range_to (gap_from, gap_to) = ltb range_from gap_to && ltb gap_from range_to

pub any_overlap : DateTime → DateTime → List (DateTime × DateTime) → Bool
any_overlap range_from range_to [] = false
any_overlap range_from range_to (g ∷ gs) =
    overlaps range_from range_to g || any_overlap range_from range_to gs

pub range_in :
    DateTime → DateTime → List (DateTime × DateTime) → Option (DateTime × DateTime) → Bool
range_in range_from range_to gaps none = false
range_in range_from range_to gaps (some (start, end)) =
    (leb start range_from && leb range_to end) && not (any_overlap range_from range_to gaps)

pub is_range_available :
    PriceHistoryState → DateTime → DateTime → Result Bool SyncPriceHistoryFatalError
is_range_available s range_from range_to =
    if leb range_to range_from
    then err (invalid_price_history_state_range range_from range_to)
    else ok (range_in range_from range_to s.gaps s.bounds)

-- The end of `next_download_range`, where there is no gap.
unfoldable pub extend_bounds : Option DateTime → DateTime × DateTime → DownloadRange
extend_bounds none (start, end) = upper_bound end
extend_bounds (some reach) (start, end) =
    if ltb reach start then lower_bound start else upper_bound end

unfoldable pub close_gap :
    Option DateTime
    → DateTime × DateTime
    → Option (DateTime × DateTime)
    → Result DownloadRange SyncPriceHistoryFatalError
close_gap reach history_bounds none = ok (extend_bounds reach history_bounds)
close_gap reach history_bounds (some (from, to)) =
    check_reach from (before_reach reach from) (ok (gap from to))

unfoldable pub next_in :
    PriceHistoryState
    → Bool
    → Option (DateTime × DateTime)
    → Result DownloadRange SyncPriceHistoryFatalError
next_in s backfilling none = ok latest
next_in s backfilling (some (start, end)) =
    let rest =
      close_gap s.reach_time (start, end) (if backfilling then head? s.gaps else last? s.gaps) in
    if start == end then check_reach start (before_reach s.reach_time start) rest else rest

unfoldable pub next_download_range :
    PriceHistoryState → Bool → Result DownloadRange SyncPriceHistoryFatalError
next_download_range s backfilling = next_in s backfilling s.bounds

-- The difference of two times, in nanoseconds.
unfoldable pub tail_of : List (DateTime × DateTime) → DateTime × DateTime → ℤ
tail_of gaps (start, end) = elim (last? gaps) [
  | none ↦ pos end -ℤ pos start
  | some g ↦ pos end -ℤ pos (g.1)
]

unfoldable pub tail_continuous_duration : PriceHistoryState → Option ℤ
tail_continuous_duration s = elim s.bounds [ none ↦ none | some b ↦ some (tail_of s.gaps b) ]

unfoldable pub is_empty {ℓ} : {A : Type ℓ} → List A → Bool
is_empty [] = true
is_empty (x ∷ xs) = false

unfoldable pub has_gaps : PriceHistoryState → Result Bool SyncPriceHistoryFatalError
has_gaps s = elim s.reach_time [
  | none ↦ err price_history_state_reach_not_set
  | some reach ↦
      ok (elim s.bounds [ none ↦ true | some b ↦ not (is_empty s.gaps) || ltb reach b.0 ])
]
