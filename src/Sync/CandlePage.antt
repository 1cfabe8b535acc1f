-- ===== src/Sync/CandlePage.antt =====
-- src/sync/process/sync_price_history_task/mod.rs: the request of a page of candles and its checks.
pub mod Accepted
use Prim.Native.Nat.{max, min}
use quantoxide.Prelude.{
  Bool, List, Option, Result, [], err, if◌then◌else◌, leb, none, ok, some, suc, unwrap_or, zero, ℕ,
  ◌%◌, ◌*◌, ◌-◌, ◌/◌, ◌==◌, ◌>>=◌, ◌∷◌,
}
use quantoxide.Sync.PriceHistory.{
  DownloadRange, SyncPriceHistoryFatalError, api_candles_not_ordered_by_time_desc,
  api_candles_times_not_rounded_to_minute, gap, latest, lower_bound, upper_bound,
}
use quantoxide.Time.{DateTime, minute}

pub data SyncPriceHistoryRecoverableError (CandleApiError : Type 0) : Type 0 where
  candles_max_trials_reached : CandleApiError → ℕ → SyncPriceHistoryRecoverableError CandleApiError
  history_handler_failed : SyncPriceHistoryRecoverableError CandleApiError

pub data SyncPriceHistoryError (CandleApiError : Type 0) : Type 0 where
  recoverable_history :
      SyncPriceHistoryRecoverableError CandleApiError → SyncPriceHistoryError CandleApiError
  fatal_history : SyncPriceHistoryFatalError → SyncPriceHistoryError CandleApiError

-- What the task needs of the tables and of the candles of the API.
pub record CandleStore : Type 1 where
  pub Tables : Type 0
  pub OhlcCandle : Type 0
  pub CandleApiError : Type 0
  pub candle_time : OhlcCandle → DateTime
  pub candle_bounds : Tables → Option (DateTime × DateTime)  -- the earliest and the latest
  pub candle_gaps : Tables → List (DateTime × DateTime)
  pub add_candles : Option DateTime → List OhlcCandle → Tables → Tables
  pub remove_gap_flag : DateTime → Tables → Tables
  pub flag_missing_candles : ℕ → Tables → Tables
  pub remove_ticks : DateTime → Tables → Tables

-- `DownloadRange::from` and `DownloadRange::to`
unfoldable pub range_from_of : DownloadRange → Option DateTime
range_from_of latest = none
range_from_of (upper_bound from) = some from
range_from_of (lower_bound to) = none
range_from_of (gap from to) = some from

unfoldable pub range_to_of : DownloadRange → Option DateTime
range_to_of latest = none
range_to_of (upper_bound from) = none
range_to_of (lower_bound to) = some to
range_to_of (gap from to) = some to

-- `CANDLE_STABLE_AGE`, in minutes
abbrev pub candle_stable_minutes : ℕ
candle_stable_minutes = 60

-- The number of candles that are asked for. The minutes from a later time to an earlier one, which
-- are negative in the code, are less than the least number of candles as well.
unfoldable pub candle_limit : ℕ → DateTime → DownloadRange → ℕ
candle_limit batch_size now range = elim (range_from_of range) [
  | none ↦ batch_size
  | some from ↦
      min
        (max ((unwrap_or (range_to_of range) now - from) / minute)
          (candle_stable_minutes * 11 / 10))
        batch_size
]

abbrev pub is_minute : DateTime → Bool
is_minute t = t % minute == 0

module _ ⦃store : CandleStore⦄ where
  open store use {OhlcCandle, CandleApiError, candle_time}

  pub record CandleTaskConfig : Type 0 where
    pub price_history_reach : DateTime
    pub price_history_batch_size : ℕ
    pub candle_max_trials : ℕ

  abbrev pub CandleFailure : Type 0
  CandleFailure = SyncPriceHistoryError CandleApiError

  -- What the outside does between one evaluation and the next: the API's answer to the n-th request
  -- for so many candles before a time, the clock, and whether the receiver still listens.
  pub record CandleTurn : Type 0 where
    pub candle_answers : ℕ → Option DateTime → ℕ → Result (List OhlcCandle) CandleApiError
    pub asked_at : DateTime
    pub receiver_listens : Bool

  -- The loop of `get_new_ohlc_candles` over the trials, from a number of them on.
  unfoldable pub fetch_candles :
      (ℕ → Result (List OhlcCandle) CandleApiError)
      → ℕ
      → ℕ
      → ℕ
      → Option (Result (List OhlcCandle) CandleFailure)
  fetch_candles api max_trials trials zero = none
  fetch_candles api max_trials trials (suc fuel) =
      let retried = fetch_candles api max_trials (suc trials) fuel in
      elim (api trials) [
        | ok page ↦ some (ok page)
        | err e ↦
            if leb max_trials (suc trials)
            then some (err (recoverable_history (candles_max_trials_reached e max_trials)))
            else retried
      ]

  -- The fuel is enough, so there is a result.
  abbrev pub fetched_candles :
      Option (Result (List OhlcCandle) CandleFailure) → Result (List OhlcCandle) CandleFailure
  fetched_candles none = ok []
  fetched_candles (some r) = r

  unfoldable pub check_rounded : OhlcCandle → Result (Unit {0}) CandleFailure
  check_rounded c =
      if is_minute (candle_time c)
      then ok tt
      else err (fatal_history api_candles_times_not_rounded_to_minute)

  -- The tests on the times of a page, the one of its last candle included.
  unfoldable pub check_candles : OhlcCandle → List OhlcCandle → Result (Unit {0}) CandleFailure
  check_candles current [] = check_rounded current
  check_candles current (next ∷ rest) =
      let checked = check_candles next rest in
      if is_minute (candle_time current)
      then (if leb (candle_time current) (candle_time next)
          then err (fatal_history (api_candles_not_ordered_by_time_desc (candle_time next)))
          else checked)
      else err (fatal_history api_candles_times_not_rounded_to_minute)

  unfoldable pub check_page : List OhlcCandle → Result (Unit {0}) CandleFailure
  check_page [] = ok tt
  check_page (c ∷ cs) = check_candles c cs

  unfoldable pub get_new_ohlc_candles :
      CandleTaskConfig → CandleTurn → DownloadRange → Result (List OhlcCandle) CandleFailure
  get_new_ohlc_candles config turn range = do
    candles ← fetched_candles (
        fetch_candles
          (turn.candle_answers (candle_limit config.price_history_batch_size turn.asked_at range)
            (range_to_of range))
          config.candle_max_trials 0 config.candle_max_trials)
    checked ← check_page candles
    ok candles
