-- ===== src/Trade/Executor/TriggerKept.antt =====
-- The operations of the executor that end well keep the running trades covered by the trigger.
use quantoxide.Db.{OhlcCandleRow}
use quantoxide.Prelude.{
  All, All-map, Bool-cases, List, Option, Result, err, false, inl, inr, leb, ltb, none, not, ok,
  refl, ℕ, ◌&&◌, ◌*◌, ◌+◌, ◌≡◌,
}
use quantoxide.Prelude.Int.{ltb_ℤ}
use quantoxide.Prelude.Maps.{Key}
use quantoxide.Sdk.{Sdk, TradeSide}
use quantoxide.Sdk.Laws.{PriceLaws}
use quantoxide.Time.{DateTime, second}
use quantoxide.Trade.Cross.{SimulatedCrossPosition}
use quantoxide.Trade.Error.{SimulatedTradeExecutorError, TradeCoreError}
use quantoxide.Trade.Executor.{
  SimulatedTradeExecutorConfig, SimulatedTradeExecutorState, Tally, start_tally,
}
use quantoxide.Trade.Executor.Candle.{
  candle_close_out, candle_history, candle_trades_update, candle_update, candle_update_with,
  exit_price_in, finish_candle, quiet_candle,
}
use quantoxide.Trade.Executor.Close.{
  Close, close_at, close_history, close_out, close_running, finish_close,
}
use quantoxide.Trade.Executor.Open.{
  admit, admit_checked, admit_with, balance_delta, create_running, create_with, opened,
}
use quantoxide.Trade.Executor.Quiet.{covered_quiet}
use quantoxide.Trade.Executor.TriggerInvariant.{
  TallyCovers, TriggerCovers, add-CoversAll, candle_trades-TallyCovers, close_trades-TallyCovers,
}
use quantoxide.Trade.History.{ClosedTradeHistory}
use quantoxide.Trade.RunningMap.{Entry, len, trades_desc}
use quantoxide.Trade.Simulated.{SimulatedTradeRunning}
use quantoxide.Trade.Stoploss.{Stoploss, TradeTrailingStoploss}
use quantoxide.Trade.Trigger.{PriceTrigger, trigger_update, was_reached}
use quantoxide.Trade.Trigger.Coverage.{Covers}
use quantoxide.Trade.Trigger.Quiet.{StaysOpen, covered-StaysOpen}

module _ ⦃sdk : Sdk⦄ where
  open sdk use {Price, PriceValidationError, Leverage, TradeSize, ClientId}

  module _ (laws : PriceLaws) (cfg : SimulatedTradeExecutorConfig) where
    candle_history-TriggerCovers :
        (s : SimulatedTradeExecutorState) (candle : OhlcCandleRow) (time : DateTime)
        (p : SimulatedCrossPosition) (cells : List (Key × Entry)) (a : Tally)
        (h : ClosedTradeHistory × Result (Unit {0}) SimulatedTradeExecutorError)
        → (candle_history s candle time p cells a h).1 ≡ ok tt
        → TallyCovers cfg a
        → TriggerCovers cfg (candle_history s candle time p cells a h).0
    unfolding candle_history finish_candle
    candle_history-TriggerCovers s candle time p cells a (h, ok _) e c = c
    candle_history-TriggerCovers s candle time p cells a (h, err x) e c = cc

    candle_close_out-TriggerCovers :
        (s : SimulatedTradeExecutorState) (candle : OhlcCandleRow) (time : DateTime)
        (p : SimulatedCrossPosition)
        (r : List (Key × Entry) × Result Tally SimulatedTradeExecutorError)
        → (candle_close_out s candle time p r).1 ≡ ok tt
        → ((a : Tally) → r.1 ≡ ok a → TallyCovers cfg a)
        → TriggerCovers cfg (candle_close_out s candle time p r).0
    unfolding candle_close_out
    candle_close_out-TriggerCovers s candle time p (cells, ok a) e c =
        candle_history-TriggerCovers s candle time p cells a _ e (c a refl)
    candle_close_out-TriggerCovers s candle time p (cells, err x) e c = cc

    candle_update_with-TriggerCovers :
        (s : SimulatedTradeExecutorState) (candle : OhlcCandleRow) (time : DateTime)
        (r : Result SimulatedCrossPosition SimulatedTradeExecutorError)
        → (candle_update_with cfg s candle time r).1 ≡ ok tt
        → TriggerCovers cfg s
        → TriggerCovers cfg (candle_update_with cfg s candle time r).0
    unfolding candle_update_with candle_trades_update quiet_candle start_tally
    candle_update_with-TriggerCovers s candle time (err x) e c = cc
    candle_update_with-TriggerCovers s candle time (ok p) e c =
        elim (Bool-cases
          (not (was_reached s.trigger candle.low) && not (was_reached s.trigger candle.high))) [
            | inl quiet ↦ rw quiet c
            | inr loud ↦ rw loud (
                candle_close_out-TriggerCovers s candle time p _ (rw loud at e) (λ a h.
                  candle_trades-TallyCovers laws cfg candle time _ (trades_desc s.running_map) h
                    tt))
          ]

    -- If `Price` is totally ordered in agreement with `f64`: a candle update that ends well keeps
    -- every running trade covered by the price trigger.
    pub candle_update-TriggerCovers :
        (s : SimulatedTradeExecutorState) (candle : OhlcCandleRow)
        → (candle_update cfg s candle).1 ≡ ok tt
        → TriggerCovers cfg s
        → TriggerCovers cfg (candle_update cfg s candle).0
    unfolding candle_update
    candle_update-TriggerCovers s candle e c =
        elim (Bool-cases (ltb (candle.time + 59 * second) s.time)) [
          | inl early ↦ rw early c
          | inr later ↦ rw later (candle_update_with-TriggerCovers s candle _ _ (rw later at e) c)
        ]

    close_history-TriggerCovers :
        (s : SimulatedTradeExecutorState) (a : Tally × List ℕ) (ids : List ℕ)
        (h : ClosedTradeHistory × Result (Unit {0}) SimulatedTradeExecutorError)
        → (close_history s a h).1 ≡ ok ids
        → TallyCovers cfg a.0
        → TriggerCovers cfg (close_history s a h).0
    unfolding close_history finish_close
    close_history-TriggerCovers s (a, closed) ids (h, ok _) e c = c
    close_history-TriggerCovers s (a, closed) ids (h, err x) e c = cc

    close_out-TriggerCovers :
        (s : SimulatedTradeExecutorState) (ids : List ℕ)
        (r : Result (Tally × List ℕ) SimulatedTradeExecutorError)
        → (close_out s r).1 ≡ ok ids
        → ((a : Tally × List ℕ) → r ≡ ok a → TallyCovers cfg a.0)
        → TriggerCovers cfg (close_out s r).0
    unfolding close_out
    close_out-TriggerCovers s ids (ok a) e c = close_history-TriggerCovers s a ids _ e (c a refl)
    close_out-TriggerCovers s ids (err x) e c = cc

    close_at-TriggerCovers :
        (s : SimulatedTradeExecutorState) (close : Close) (ids : List ℕ)
        (r : Result Price PriceValidationError)
        → (close_at cfg s close r).1 ≡ ok ids
        → TriggerCovers cfg (close_at cfg s close r).0
    unfolding close_at start_tally
    close_at-TriggerCovers s close ids (ok price) e = close_out-TriggerCovers s ids _ e (λ a h.
        close_trades-TallyCovers laws cfg close s.time price _ (trades_desc s.running_map) h tt)
    close_at-TriggerCovers s close ids (err x) e = cc

    -- If `Price` is totally ordered in agreement with `f64`: closing trades by id, by side or all of
    -- them leaves, when it ends well, a trigger that covers every trade that still runs, whatever the
    -- trigger was before.
    pub close_running-TriggerCovers :
        (s : SimulatedTradeExecutorState) (close : Close) (ids : List ℕ)
        → (close_running cfg s close).1 ≡ ok ids
        → TriggerCovers cfg (close_running cfg s close).0
    unfolding close_running
    close_running-TriggerCovers s close ids e = close_at-TriggerCovers s close ids _ e

    admit_with-TriggerCovers :
        (s : SimulatedTradeExecutorState) (t : SimulatedTradeRunning)
        (tsl : Option TradeTrailingStoploss) (id : ℕ) (r : Result PriceTrigger TradeCoreError)
        → (admit_with s t tsl r).1 ≡ ok id
        → trigger_update s.trigger cfg.trailing_stoploss_step_size t tsl ≡ r
        → TriggerCovers cfg s
        → TriggerCovers cfg (admit_with s t tsl r).0
    unfolding admit_with opened
    admit_with-TriggerCovers s t tsl id (ok g) e h c =
        add-CoversAll laws cfg s.trigger s.running_map t tsl h c
    admit_with-TriggerCovers s t tsl id (err x) e h c = cc

    create_with-TriggerCovers :
        (s : SimulatedTradeExecutorState) (id : ℕ)
        (r : Result
          (SimulatedTradeRunning × Option TradeTrailingStoploss)
          SimulatedTradeExecutorError)
        → (create_with cfg s r).1 ≡ ok id
        → TriggerCovers cfg s
        → TriggerCovers cfg (create_with cfg s r).0
    unfolding create_with admit_checked admit
    create_with-TriggerCovers s id (err x) e c = cc
    create_with-TriggerCovers s id (ok (t, tsl)) e c =
        elim (Bool-cases (ltb_ℤ s.balance (balance_delta t))) [
          | inl low ↦ rw low c
          | inr funded ↦ elim (Bool-cases (leb cfg.trade_max_running_qtd (len s.running_map))) [
            | inl full ↦ rw (funded, full) c
            | inr room ↦
                rw (funded, room)
                  (admit_with-TriggerCovers s t tsl id _ (rw (funded, room) at e) refl c)
          ]
        ]

    -- If `Price` is totally ordered in agreement with `f64`: opening a trade, when it ends well,
    -- keeps every running trade, the new one included, covered by the price trigger.
    pub create_running-TriggerCovers :
        (s : SimulatedTradeExecutorState) (id : ℕ) (side : TradeSide) (size : TradeSize)
        (leverage : Leverage) (stoploss : Option Stoploss) (takeprofit : Option Price)
        (client_id : Option ClientId) (new_id : ℕ)
        → (create_running cfg s id side size leverage stoploss takeprofit client_id).1 ≡ ok new_id
        → TriggerCovers cfg s
        → TriggerCovers cfg
            (create_running cfg s id side size leverage stoploss takeprofit client_id).0
    unfolding create_running
    create_running-TriggerCovers s id side size leverage stoploss takeprofit client_id new_id e c =
        create_with-TriggerCovers s new_id _ e c

    -- If `Price` is totally ordered in agreement with `f64` and the trigger covers the running
    -- trades: where neither end of a candle reaches the trigger, the loop over the trades that is
    -- skipped would close none of them. The candle reaches no stoploss and no takeprofit of a running
    -- trade, and no liquidation price but where the trade's stoploss lies beyond it.
    pub quiet_closes_none :
        (s : SimulatedTradeExecutorState) (candle : OhlcCandleRow)
        → TriggerCovers cfg s
        → was_reached s.trigger candle.low ≡ false
        → was_reached s.trigger candle.high ≡ false
        → All
            (λ (e : Key × Entry).
              (exit_price_in e.1.0 candle ≡ none) × StaysOpen e.1.0 candle.low candle.high)
            s.running_map.trades
    quiet_closes_none s candle c l h =
        let step = cfg.trailing_stoploss_step_size in
        All-map (λ (e : Key × Entry). Covers step s.trigger e.1) _ s.running_map.trades
          (λ e k. (
            covered_quiet laws step s.trigger e.1.0 e.1.1 candle k l h,
            covered-StaysOpen laws step s.trigger e.1.0 e.1.1 candle.low candle.high k l h,
          ))
          c
