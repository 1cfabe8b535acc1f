-- ===== src/Trade/Executor/Candle.antt =====
-- `SimulatedTradeExecutor::candle_update`.
use quantoxide.Db.{OhlcCandleRow}
use quantoxide.Prelude.{
  Bool, List, Option, Result, [], err, false, if◌then◌else◌, ltb, map_err, none, not, ok, reverse,
  some, unwrap_or, ◌&&◌, ◌*◌, ◌+◌, ◌>>=◌, ◌∷◌,
}
use quantoxide.Prelude.Maps.{Key}
use quantoxide.Sdk.{Sdk, TradeSide, buy, sell}
use quantoxide.Time.{DateTime, second}
use quantoxide.Trade.Cross.{SimulatedCrossPosition, liquidate, liquidation_reached}
use quantoxide.Trade.Error.{
  SimulatedTradeExecutorError, stoploss_evaluation, tick_update_price_validation,
  time_sequence_violation,
}
use quantoxide.Trade.Executor.{
  Outcome, SimulatedTradeExecutorConfig, SimulatedTradeExecutorState, Tally, add_closed,
  book_closed, keep_running, start_tally,
}
use quantoxide.Trade.History.{ClosedTradeHistory}
use quantoxide.Trade.RunningMap.{Entry, trades_desc}
use quantoxide.Trade.Simulated.{SimulatedTradeRunning, to_closed, with_new_stoploss}
use quantoxide.Trade.Stoploss.{TradeTrailingStoploss}
use quantoxide.Trade.Trigger.{next_stoploss_update_trigger, price_lt, was_reached}

module _ ⦃sdk : Sdk⦄ where
  open sdk use {
    F64, f64_le, Price, price_le, price_as_f64, price_round, PercentageCapped, percentage,
    apply_gain, apply_discount,
  }

  -- (trade_min_opt, trade_max_opt)
  unfoldable pub exit_bounds : TradeSide → SimulatedTradeRunning → Option Price × Option Price
  exit_bounds buy t = (some (unwrap_or t.stoploss t.liquidation), t.takeprofit)
  exit_bounds sell t = (t.takeprofit, some (unwrap_or t.stoploss t.liquidation))

  abbrev pub below_min : Option Price → F64 → Bool
  below_min none low = false
  below_min (some trade_min) low = f64_le low (price_as_f64 trade_min)

  abbrev pub above_max : Option Price → F64 → Bool
  above_max none high = false
  above_max (some trade_max) high = f64_le (price_as_f64 trade_max) high

  -- The price at which the candle closes the trade, the lower bound first.
  unfoldable pub exit_at : Option Price × Option Price → OhlcCandleRow → Option Price
  exit_at (trade_min, trade_max) candle =
      if below_min trade_min candle.low
      then trade_min
      else if above_max trade_max candle.high
      then trade_max
      else none

  unfoldable pub exit_price_in : SimulatedTradeRunning → OhlcCandleRow → Option Price
  exit_price_in t candle = exit_at (exit_bounds t.side t) candle

  -- `Price::round(..).map_err(TickUpdatePriceValidation)?`
  unfoldable pub tick_round : F64 → Result Price SimulatedTradeExecutorError
  tick_round x = map_err tick_update_price_validation (price_round x)

  -- The new trailing stoploss, if the candle moved it.
  unfoldable pub trailed_stoploss :
      TradeSide
      → OhlcCandleRow
      → PercentageCapped
      → Price
      → Price
      → Result (Option Price) SimulatedTradeExecutorError
  trailed_stoploss buy candle trade_tsl next_trigger market_price = do
    highest_price ← tick_round candle.high
    if price_le next_trigger highest_price
        then (do
          new_stoploss ←
              map_err tick_update_price_validation (apply_discount highest_price trade_tsl)
          ok (if price_lt new_stoploss market_price then some new_stoploss else none))
        else ok none
  trailed_stoploss sell candle trade_tsl next_trigger market_price = do
    lowest_price ← tick_round candle.low
    if price_le lowest_price next_trigger
        then (do
          new_stoploss ←
              map_err tick_update_price_validation (apply_gain lowest_price (percentage trade_tsl))
          ok (if price_lt market_price new_stoploss then some new_stoploss else none))
        else ok none

  unfoldable pub set_stoploss :
      SimulatedTradeRunning
      → Price
      → Option Price
      → Result SimulatedTradeRunning SimulatedTradeExecutorError
  set_stoploss t market_price none = ok t
  set_stoploss t market_price (some new_stoploss) = with_new_stoploss t market_price new_stoploss

  -- The trade after its trailing stoploss was looked at.
  unfoldable pub trail :
      SimulatedTradeExecutorConfig
      → OhlcCandleRow
      → SimulatedTradeRunning
      → Option TradeTrailingStoploss
      → Result SimulatedTradeRunning SimulatedTradeExecutorError
  trail cfg candle t none = ok t
  trail cfg candle t (some trade_tsl) = do
    next_trigger ←
        map_err stoploss_evaluation
          (next_stoploss_update_trigger t cfg.trailing_stoploss_step_size trade_tsl)
    market_price ← tick_round candle.close
    new_stoploss ← trailed_stoploss t.side candle trade_tsl next_trigger market_price
    set_stoploss t market_price new_stoploss

  -- After the trade's cell was written.
  unfoldable pub keep_trailed :
      SimulatedTradeExecutorConfig
      → Tally
      → SimulatedTradeRunning
      → Option TradeTrailingStoploss
      → Result SimulatedTradeRunning SimulatedTradeExecutorError
      → SimulatedTradeRunning × Result Tally SimulatedTradeExecutorError
  keep_trailed cfg a t tsl (ok t') = (t', keep_running cfg a t' tsl)
  keep_trailed cfg a t tsl (err e) = (t, err e)

  unfoldable pub exit_or_trail :
      SimulatedTradeExecutorConfig
      → OhlcCandleRow
      → DateTime
      → Tally
      → SimulatedTradeRunning
      → Option TradeTrailingStoploss
      → Option Price
      → SimulatedTradeRunning × Result Tally SimulatedTradeExecutorError
  exit_or_trail cfg candle time a t tsl (some close_price) =
      (t, ok (book_closed a (to_closed t cfg.fee_perc candle.time close_price) (some time)))
  exit_or_trail cfg candle time a t tsl none = keep_trailed cfg a t tsl (trail cfg candle t tsl)

  -- One round of the loop: the trade's cell in the map, and the tally.
  unfoldable pub candle_trade :
      SimulatedTradeExecutorConfig
      → OhlcCandleRow
      → DateTime
      → Tally
      → Entry
      → SimulatedTradeRunning × Result Tally SimulatedTradeExecutorError
  candle_trade cfg candle time a (t, tsl) =
      exit_or_trail cfg candle time a t tsl (exit_price_in t candle)

  -- The rest of the loop runs only if the round did not fail.
  unfoldable pub candle_next :
      Key
      → Option TradeTrailingStoploss
      → List (Key × Entry)
      → SimulatedTradeRunning × Result Tally SimulatedTradeExecutorError
      → (Tally → List (Key × Entry) × Result Tally SimulatedTradeExecutorError)
      → List (Key × Entry) × Result Tally SimulatedTradeExecutorError
  candle_next k tsl es (t', ok a) rest = let (cells, r) = rest a in ((k, (t', tsl)) ∷ cells, r)
  candle_next k tsl es (t', err e) rest = ((k, (t', tsl)) ∷ es, err e)

  -- The loop over `trades_desc_mut`: the cells as they are left, and the tally.
  unfoldable pub candle_trades :
      SimulatedTradeExecutorConfig
      → OhlcCandleRow
      → DateTime
      → Tally
      → List (Key × Entry)
      → List (Key × Entry) × Result Tally SimulatedTradeExecutorError
  candle_trades cfg candle time a [] = ([], ok a)
  candle_trades cfg candle time a ((k, e) ∷ es) =
      candle_next k e.1 es (candle_trade cfg candle time a e)
        (λ a'. candle_trades cfg candle time a' es)

  unfoldable pub cross_after_candle :
      SimulatedTradeExecutorConfig
      → SimulatedCrossPosition
      → OhlcCandleRow
      → Result SimulatedCrossPosition SimulatedTradeExecutorError
  cross_after_candle cfg p candle =
      if liquidation_reached p candle then liquidate p cfg.fee_perc else ok p

  -- What is written after the closed trades went into the history.
  unfoldable pub finish_candle :
      SimulatedTradeExecutorState
      → OhlcCandleRow
      → DateTime
      → Tally
      → SimulatedCrossPosition
      → ClosedTradeHistory
      → SimulatedTradeExecutorState
  finish_candle s candle time a cross_position history = record s {
    time = time;
    market_price = candle.close;
    balance = a.new_balance;
    last_trade_time = a.new_last_trade_time;
    trigger = a.new_trigger;
    running_map = a.new_running_map;
    realized_pl = a.new_realized_pl;
    closed_history = history;
    closed_fees = a.new_closed_fees;
    cross_position = cross_position;
  }

  -- On an error the cells that the loop wrote stay written.
  unfoldable pub candle_history :
      SimulatedTradeExecutorState
      → OhlcCandleRow
      → DateTime
      → SimulatedCrossPosition
      → List (Key × Entry)
      → Tally
      → ClosedTradeHistory × Result (Unit {0}) SimulatedTradeExecutorError
      → Outcome (Unit {0})
  candle_history s candle time cross_position cells a (history, ok _) =
      (finish_candle s candle time a cross_position history, ok tt)
  candle_history s candle time cross_position cells a (history, err e) = (
    record s {
      running_map = record s.running_map { trades = reverse cells };
      closed_history = history;
    },
    err e,
  )

  unfoldable pub candle_close_out :
      SimulatedTradeExecutorState
      → OhlcCandleRow
      → DateTime
      → SimulatedCrossPosition
      → List (Key × Entry) × Result Tally SimulatedTradeExecutorError
      → Outcome (Unit {0})
  candle_close_out s candle time cross_position (cells, err e) =
      (record s { running_map = record s.running_map { trades = reverse cells } }, err e)
  candle_close_out s candle time cross_position (cells, ok a) =
      candle_history s candle time cross_position cells a
        (add_closed s.closed_history a.closed_trades)

  -- No isolated trade can be affected.
  unfoldable pub quiet_candle :
      SimulatedTradeExecutorState
      → OhlcCandleRow
      → DateTime
      → Option DateTime
      → SimulatedCrossPosition
      → SimulatedTradeExecutorState
  quiet_candle s candle time last_trade_time cross_position = record s {
    time = time;
    market_price = candle.close;
    last_trade_time = last_trade_time;
    cross_position = cross_position;
  }

  unfoldable pub candle_trades_update :
      SimulatedTradeExecutorConfig
      → SimulatedTradeExecutorState
      → OhlcCandleRow
      → DateTime
      → Option DateTime
      → SimulatedCrossPosition
      → Outcome (Unit {0})
  candle_trades_update cfg s candle time last_trade_time cross_position =
      candle_close_out s candle time cross_position
        (candle_trades cfg candle time (start_tally s last_trade_time) (trades_desc s.running_map))

  unfoldable pub candle_update_with :
      SimulatedTradeExecutorConfig
      → SimulatedTradeExecutorState
      → OhlcCandleRow
      → DateTime
      → Result SimulatedCrossPosition SimulatedTradeExecutorError
      → Outcome (Unit {0})
  candle_update_with cfg s candle time (err e) = (s, err e)
  candle_update_with cfg s candle time (ok cross_position) =
      let last_trade_time =
        if liquidation_reached s.cross_position candle then some time else s.last_trade_time in
      if not (was_reached s.trigger candle.low) && not (was_reached s.trigger candle.high)
      then (quiet_candle s candle time last_trade_time cross_position, ok tt)
      else candle_trades_update cfg s candle time last_trade_time cross_position

  unfoldable pub candle_update :
      SimulatedTradeExecutorConfig
      → SimulatedTradeExecutorState
      → OhlcCandleRow
      → Outcome (Unit {0})
  candle_update cfg s candle =
      let time = candle.time + 59 * second in
      if ltb time s.time
      then (s, err (time_sequence_violation time s.time))
      else candle_update_with cfg s candle time (cross_after_candle cfg s.cross_position candle)
