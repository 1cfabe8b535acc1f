-- ===== src/Trade/Executor/Close.antt =====
-- `SimulatedTradeExecutor::close_running`, and the orders of `TradeExecutor` that call it.
use quantoxide.Prelude.{
  Bool, List, Result, [], err, if◌then◌else◌, ok, some, true, ℕ, ◌++◌, ◌==◌, ◌>>=◌, ◌∷◌,
}
use quantoxide.Prelude.Maps.{Key}
use quantoxide.Sdk.{Sdk, TradeSide, buy, sell}
use quantoxide.Time.{DateTime}
use quantoxide.Trade.Cross.{side_eq}
use quantoxide.Trade.Error.{SimulatedTradeExecutorError, invalid_market_price}
use quantoxide.Trade.Executor.{
  Outcome, SimulatedTradeExecutorConfig, SimulatedTradeExecutorState, Tally, add_closed,
  book_closed, keep_running, start_tally,
}
use quantoxide.Trade.History.{ClosedTradeHistory}
use quantoxide.Trade.RunningMap.{Entry, trades_desc}
use quantoxide.Trade.Simulated.{SimulatedTradeRunning, to_closed}

module _ ⦃sdk : Sdk⦄ where
  open sdk use {Price, PriceValidationError, price_round}

  pub data Close : Type 0 where
    single : ℕ → Close
    side_of : TradeSide → Close
    all : Close

  unfoldable pub should_be_closed : Close → SimulatedTradeRunning → Bool
  should_be_closed (single id) t = id == t.id
  should_be_closed (side_of side) t = side_eq side t.side
  should_be_closed all t = true

  -- One round of the loop, on the tally and the closed ids.
  unfoldable pub close_trade :
      SimulatedTradeExecutorConfig
      → Close
      → DateTime
      → Price
      → Tally × List ℕ
      → Entry
      → Result (Tally × List ℕ) SimulatedTradeExecutorError
  close_trade cfg close time market_price (a, closed_ids) (t, tsl) =
      if should_be_closed close t
      then ok (
        book_closed a (to_closed t cfg.fee_perc time market_price) a.new_last_trade_time,
        closed_ids ++ (t.id ∷ []),
      )
      else do a' ← keep_running cfg a t tsl; ok (a', closed_ids)

  unfoldable pub close_trades :
      SimulatedTradeExecutorConfig
      → Close
      → DateTime
      → Price
      → Tally × List ℕ
      → List (Key × Entry)
      → Result (Tally × List ℕ) SimulatedTradeExecutorError
  close_trades cfg close time market_price a [] = ok a
  close_trades cfg close time market_price a ((k, e) ∷ es) = do
    a' ← close_trade cfg close time market_price a e
    close_trades cfg close time market_price a' es

  unfoldable pub finish_close :
      SimulatedTradeExecutorState → Tally → ClosedTradeHistory → SimulatedTradeExecutorState
  finish_close s a history = record s {
    balance = a.new_balance;
    last_trade_time = some s.time;
    trigger = a.new_trigger;
    running_map = a.new_running_map;
    realized_pl = a.new_realized_pl;
    closed_history = history;
    closed_fees = a.new_closed_fees;
  }

  unfoldable pub close_history :
      SimulatedTradeExecutorState
      → Tally × List ℕ
      → ClosedTradeHistory × Result (Unit {0}) SimulatedTradeExecutorError
      → Outcome (List ℕ)
  close_history s (a, closed_ids) (history, ok _) = (finish_close s a history, ok closed_ids)
  close_history s (a, closed_ids) (history, err e) = (record s { closed_history = history }, err e)

  unfoldable pub close_out :
      SimulatedTradeExecutorState
      → Result (Tally × List ℕ) SimulatedTradeExecutorError
      → Outcome (List ℕ)
  close_out s (err e) = (s, err e)
  close_out s (ok a) = close_history s a (add_closed s.closed_history a.0.closed_trades)

  unfoldable pub close_at :
      SimulatedTradeExecutorConfig
      → SimulatedTradeExecutorState
      → Close
      → Result Price PriceValidationError
      → Outcome (List ℕ)
  close_at cfg s close (err e) = (s, err (invalid_market_price e))
  close_at cfg s close (ok market_price) = close_out s (
      close_trades cfg close s.time market_price (start_tally s s.last_trade_time, [])
        (trades_desc s.running_map))

  unfoldable pub close_running :
      SimulatedTradeExecutorConfig → SimulatedTradeExecutorState → Close → Outcome (List ℕ)
  close_running cfg s close = close_at cfg s close (price_round s.market_price)

  abbrev forget : {A : Type 0} → Outcome A → Outcome (Unit {0})
  forget (s, ok _) = (s, ok tt)
  forget (s, err e) = (s, err e)

  pub isolated_order_close :
      SimulatedTradeExecutorConfig → SimulatedTradeExecutorState → ℕ → Outcome (Unit {0})
  isolated_order_close cfg s trade_id = forget (close_running cfg s (single trade_id))

  pub isolated_order_close_longs :
      SimulatedTradeExecutorConfig → SimulatedTradeExecutorState → Outcome (List ℕ)
  isolated_order_close_longs cfg s = close_running cfg s (side_of buy)

  pub isolated_order_close_shorts :
      SimulatedTradeExecutorConfig → SimulatedTradeExecutorState → Outcome (List ℕ)
  isolated_order_close_shorts cfg s = close_running cfg s (side_of sell)

  pub isolated_order_close_all :
      SimulatedTradeExecutorConfig → SimulatedTradeExecutorState → Outcome (List ℕ)
  isolated_order_close_all cfg s = close_running cfg s all
