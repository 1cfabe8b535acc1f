-- ===== src/Sync/PriceTask.antt =====
-- src/sync/process/sync_price_history_task/mod.rs: the task that downloads candles. Queries that
-- fail, each of which ends the task with its error, are left out.
pub mod Complete
pub mod LiveReach
use quantoxide.Prelude.{
  Bool, List, Option, [], err, false, if◌then◌else◌, ltb, map_err, none, ok, some, true, ℕ, ◌++◌,
  ◌-◌, ◌∷◌,
}
use quantoxide.Prelude.Int.{leb_ℤ, pos, ℤ}
use quantoxide.Sync.CandlePage.{
  CandleFailure, CandleStore, CandleTaskConfig, CandleTurn, fatal_history, get_new_ohlc_candles,
  history_handler_failed, range_to_of, recoverable_history,
}
use quantoxide.Sync.PriceHistory.{
  DownloadRange, PriceHistoryState, api_candles_not_available_before_history_start, gap, has_gaps,
  history_new, is_empty, latest, lookback_exceeds_price_history_reach, lower_bound,
  next_download_range, tail_continuous_duration, upper_bound,
}
use quantoxide.Sync.Step.{Step, of_result, pure, throw, ◌>>=◌, ◌>>◌}
use quantoxide.Time.{DateTime}

module _ ⦃store : CandleStore⦄ where
  open store use {
    Tables, OhlcCandle, candle_bounds, candle_gaps, add_candles, remove_gap_flag,
    flag_missing_candles, remove_ticks,
  }

  pub record CandleWorld : Type 0 where
    pub tables : Tables
    pub sent_states : List PriceHistoryState

  abbrev CandleTask : Type 0 → Type 0
  CandleTask = Step CandleWorld CandleFailure

  unfoldable pub write_tables : (Tables → Tables) → CandleTask (Unit {0})
  write_tables f w = (record w { tables = f w.tables }, ok tt)

  -- What follows where no candle came.
  unfoldable pub nothing_new : DownloadRange → CandleTask (Unit {0})
  nothing_new latest = pure tt
  nothing_new (upper_bound from) = pure tt
  nothing_new (lower_bound to) =
      throw (fatal_history (api_candles_not_available_before_history_start to))
  nothing_new (gap from to) = write_tables (remove_gap_flag to)

  unfoldable pub download_candles :
      CandleTaskConfig → CandleTurn → DownloadRange → CandleTask (Unit {0})
  download_candles config turn range = do
    new_candles ← of_result (get_new_ohlc_candles config turn range)
    write_tables (add_candles (range_to_of range) new_candles)
    if is_empty new_candles then nothing_new range else pure tt

  unfoldable pub handle_history_update : Bool → PriceHistoryState → CandleTask (Unit {0})
  handle_history_update true state w =
      (record w { sent_states = w.sent_states ++ (state ∷ []) }, ok tt)
  handle_history_update false state w = (w, err (recoverable_history history_handler_failed))

  -- `PriceHistoryState::evaluate_with_reach`
  unfoldable pub evaluate_history : CandleTaskConfig → CandleTask PriceHistoryState
  evaluate_history config w = (
    w,
    map_err fatal_history (
        history_new (some config.price_history_reach) (candle_bounds w.tables)
          (candle_gaps w.tables)),
  )

  -- An evaluation that is sent on.
  unfoldable pub report_history : CandleTaskConfig → Bool → CandleTask PriceHistoryState
  report_history config listens = do
    state ← evaluate_history config
    handle_history_update listens state
    pure state

  unfoldable pub fetches_latest : DownloadRange → Bool
  fetches_latest latest = true
  fetches_latest (upper_bound from) = true
  fetches_latest (lower_bound to) = false
  fetches_latest (gap from to) = false

  abbrev pub end_of : Option (DateTime × DateTime) → Option DateTime
  end_of none = none
  end_of (some (start, end)) = some end

  unfoldable pub bound_end : PriceHistoryState → Option DateTime
  bound_end s = end_of s.bounds

  unfoldable pub clear_ticks : Option DateTime → CandleTask (Unit {0})
  clear_ticks none = pure tt
  clear_ticks (some bound_end) = write_tables (remove_ticks bound_end)

  pub data CandleTurnEnd : Type 0 where
    goes_on : PriceHistoryState → CandleTurnEnd
    is_done : PriceHistoryState → CandleTurnEnd

  -- One turn of the loop of `backfill`, from the last evaluated state.
  unfoldable pub backfill_candles_turn :
      CandleTaskConfig → CandleTurn → PriceHistoryState → CandleTask CandleTurnEnd
  backfill_candles_turn config turn history_state = do
    range ← of_result (map_err fatal_history (next_download_range history_state true))
    download_candles config turn range
    new_state ← report_history config turn.receiver_listens
    lacks ← of_result (map_err fatal_history (has_gaps new_state))
    if lacks
        then pure (goes_on new_state)
        else if fetches_latest range
        then (clear_ticks (bound_end new_state) >> pure (is_done new_state))
        else pure (goes_on new_state)

  -- The loop, for as many turns as are given: the last state where it returned, or `none` where it
  -- still runs.
  unfoldable pub backfill_candles_loop :
      CandleTaskConfig → List CandleTurn → PriceHistoryState → CandleTask (Option PriceHistoryState)
  backfill_candles_loop config [] history_state = pure none
  backfill_candles_loop config (turn ∷ turns) history_state = do
    end ← backfill_candles_turn config turn history_state
    elim end [
      | is_done last ↦ pure (some last)
      | goes_on next ↦ backfill_candles_loop config turns next
    ]

  unfoldable pub flag_gaps : Option ℕ → CandleTask (Unit {0})
  flag_gaps none = pure tt
  flag_gaps (some range) = write_tables (flag_missing_candles range)

  unfoldable pub backfill_candles :
      CandleTaskConfig → Option ℕ → Bool → List CandleTurn → CandleTask (Option PriceHistoryState)
  backfill_candles config flag_gaps_range listens turns = do
    flag_gaps flag_gaps_range
    history_state ← report_history config listens
    backfill_candles_loop config turns history_state

  unfoldable pub reaches_back : ℕ → Option ℤ → Bool
  reaches_back lookback none = false
  reaches_back lookback (some tail) = leb_ℤ (pos lookback) tail

  -- The loop of `live`, for as many turns as are given.
  unfoldable pub live_candles_loop :
      CandleTaskConfig → ℕ → List CandleTurn → CandleTask (Option PriceHistoryState)
  live_candles_loop config lookback [] = pure none
  live_candles_loop config lookback (turn ∷ turns) = do
    history_state ← report_history config turn.receiver_listens
    let rest = live_candles_loop config lookback turns
    if reaches_back lookback (tail_continuous_duration history_state)
        then pure (some history_state)
        else (do
          range ← of_result (map_err fatal_history (next_download_range history_state false))
          download_candles config turn range
          rest)

  unfoldable pub initial_range : Option DateTime → DownloadRange
  initial_range none = latest
  initial_range (some bound_end) = upper_bound bound_end

  -- `live` with a lookback that is a duration from 0 on, in nanoseconds.
  unfoldable pub live_candles :
      CandleTaskConfig
      → DateTime
      → ℕ
      → CandleTurn
      → List CandleTurn
      → CandleTask (Option PriceHistoryState)
  live_candles config now lookback first turns =
      let lookback_reach = now - lookback in
      if ltb lookback_reach config.price_history_reach
      then throw (
          fatal_history
            (lookback_exceeds_price_history_reach lookback_reach config.price_history_reach))
      else (do
        history_state ← report_history config first.receiver_listens
        download_candles config first (initial_range (bound_end history_state))
        live_candles_loop config lookback turns)
