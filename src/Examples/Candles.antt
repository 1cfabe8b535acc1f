-- ===== src/Examples/Candles.antt =====
-- The download of candles at concrete inputs.
use quantoxide.Prelude.{
  List, [], err, head?, last?, none, ok, some, suc, true, zero, ℕ, ◌*◌, ◌++◌, ◌↔◌, ◌∷◌, ◌≡◌,
}
use quantoxide.Prelude.Int.{◌+ℤ◌, ◌-ℤ◌}
use quantoxide.Sync.CandlePage.{
  CandleStore, CandleTaskConfig, CandleTurn, candle_limit, check_candles, check_page, check_rounded,
  fetch_candles, get_new_ohlc_candles, range_from_of, range_to_of,
}
use quantoxide.Sync.CandlePage.Accepted.{AllAtMinutes, Descending, check_page-exact}
use quantoxide.Sync.PriceHistory.{
  PriceHistoryState, before_reach, check_first_gap, check_reach, close_gap, extend_bounds, has_gaps,
  history_new, is_empty, next_download_range, next_in, tail_continuous_duration, tail_of,
}
use quantoxide.Sync.PriceTask.{
  CandleWorld, backfill_candles, backfill_candles_loop, backfill_candles_turn, bound_end,
  clear_ticks, download_candles, evaluate_history, fetches_latest, flag_gaps, handle_history_update,
  initial_range, live_candles, live_candles_loop, nothing_new, reaches_back, report_history,
  write_tables,
}
use quantoxide.Sync.PriceTask.Complete.{Any, IsComplete, backfill_candles-AtCandleReturn}
use quantoxide.Sync.PriceTask.LiveReach.{GapLaws, ReachesBack, live_candles-ReachesBack}
use quantoxide.Time.{DateTime, minute}

-- Candles are their times, and a table is the list of them, the latest first.
abbrev toy_candles : CandleStore
toy_candles = record {
  Tables = List DateTime;
  OhlcCandle = DateTime;
  CandleApiError = ℕ;
  candle_time = λ c. c;
  candle_bounds = λ db. elim (head? db) [
    | none ↦ none
    | some t ↦ elim (last? db) [ none ↦ none | some u ↦ some (u, t) ]
  ];
  candle_gaps = λ db. [];
  add_candles = λ to page db. page ++ db;
  remove_gap_flag = λ to db. db;
  flag_missing_candles = λ range db. db;
  remove_ticks = λ end db. db;
}

abbrev m10 : DateTime
m10 = 10 * minute

abbrev m11 : DateTime
m11 = 11 * minute

abbrev m12 : DateTime
m12 = 12 * minute

check_page-exact_example : (check_page ⦃store = toy_candles⦄ (m12 ∷ m11 ∷ []) ≡ ok tt) ↔ (
    AllAtMinutes ⦃store = toy_candles⦄ (m12 ∷ m11 ∷ [])
    × Descending ⦃store = toy_candles⦄ (m12 ∷ m11 ∷ []))
check_page-exact_example = check_page-exact ⦃store = toy_candles⦄ (m12 ∷ m11 ∷ [])

abbrev candle_config : CandleTaskConfig ⦃store = toy_candles⦄
candle_config = record {
  price_history_reach = m10;
  price_history_batch_size = 100;
  candle_max_trials = 2;
}

-- The first request of a turn fails, the second brings three candles.
abbrev candle_turn : CandleTurn ⦃store = toy_candles⦄
candle_turn = record {
  candle_answers = λ limit to n. elim n [ zero ↦ err 500 | suc i ↦ ok (m12 ∷ m11 ∷ m10 ∷ []) ];
  asked_at = m12;
  receiver_listens = true;
}

abbrev empty_world : CandleWorld ⦃store = toy_candles⦄
empty_world = record { tables = []; sent_states = [] }

abbrev whole : PriceHistoryState
whole = record { reach_time = some m10; bounds = some (m10, m12); gaps = [] }

abbrev backfilled : CandleWorld ⦃store = toy_candles⦄
backfilled =
    (backfill_candles ⦃store = toy_candles⦄ candle_config none true (candle_turn ∷ [])
      empty_world).0

backfill_candles-AtCandleReturn_example :
    Any ⦃store = toy_candles⦄ candle_config backfilled
    × IsComplete ⦃store = toy_candles⦄ candle_config backfilled whole
unfolding backfill_candles backfill_candles_loop backfill_candles_turn before_reach bound_end
    candle_limit check_candles check_first_gap check_page check_reach check_rounded clear_ticks
    close_gap download_candles evaluate_history extend_bounds fetch_candles fetches_latest flag_gaps
    get_new_ohlc_candles handle_history_update has_gaps history_new is_empty next_download_range
    next_in nothing_new range_from_of range_to_of report_history write_tables ◌+ℤ◌ ◌-ℤ◌
backfill_candles-AtCandleReturn_example =
    backfill_candles-AtCandleReturn ⦃store = toy_candles⦄ candle_config none true (candle_turn ∷ [])
      empty_world

abbrev toy_gap_laws : GapLaws toy_candles
toy_gap_laws = record { gaps_rise = λ db start end h. tt }

abbrev went_live : CandleWorld ⦃store = toy_candles⦄
went_live =
    (live_candles ⦃store = toy_candles⦄ candle_config (13 * minute) (2 * minute) candle_turn
      (candle_turn ∷ []) empty_world).0

live_candles-ReachesBack_example :
    Any ⦃store = toy_candles⦄ candle_config went_live
    × ReachesBack ⦃store = toy_candles⦄ toy_gap_laws candle_config
        (2 * minute)
        went_live
        (some whole)
unfolding before_reach bound_end candle_limit check_candles check_first_gap check_page check_reach
    check_rounded close_gap download_candles evaluate_history extend_bounds fetch_candles
    get_new_ohlc_candles handle_history_update history_new initial_range is_empty live_candles
    live_candles_loop next_download_range next_in nothing_new range_from_of range_to_of reaches_back
    report_history tail_continuous_duration tail_of write_tables ◌+ℤ◌ ◌-ℤ◌
live_candles-ReachesBack_example =
    live_candles-ReachesBack ⦃store = toy_candles⦄ toy_gap_laws candle_config (2 * minute)
      (13 * minute) candle_turn (candle_turn ∷ []) empty_world
