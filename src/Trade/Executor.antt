-- ===== src/Trade/Executor.antt =====
-- The state of the simulated executor (src/trade/backtest/executor/mod.rs) and what its operations
-- share. The state sits behind a mutex that each operation holds throughout, so an operation is a
-- function of the state; it returns the state that it leaves, also with an error.
pub mod Candle
pub mod Funding
pub mod Close
pub mod Open
pub mod Margin
pub mod CrossAccount
pub mod Quiet
pub mod Transfer
pub mod TriggerInvariant
pub mod TriggerKept
use quantoxide.Db.{OhlcCandleRow}
use quantoxide.Prelude.{
  List, Option, Result, [], err, if◌then◌else◌, ltb, map_err, none, ok, ℕ, ◌++◌, ◌>>=◌, ◌∷◌,
}
use quantoxide.Prelude.Int.{pos, ℤ}
use quantoxide.Prelude.Machine.{as_i64, i64_add, i64_sub, u64_add}
use quantoxide.Sdk.{Sdk}
use quantoxide.Time.{DateTime}
use quantoxide.Trade.Cross.{SimulatedCrossPosition, cross_initial}
use quantoxide.Trade.Error.{
  SimulatedTradeExecutorError, closed_history_update, price_trigger_update, time_sequence_violation,
}
use quantoxide.Trade.History.{ClosedTradeHistory, empty_history, history_add}
use quantoxide.Trade.RunningMap.{RunningTradesMap, add, empty_map}
use quantoxide.Trade.Simulated.{
  SimulatedTradeClosed, SimulatedTradeRunning, closed_maintenance_margin, closed_pl,
}
use quantoxide.Trade.Stoploss.{TradeTrailingStoploss}
use quantoxide.Trade.Trigger.{PriceTrigger, not_set, trigger_update}

module _ ⦃sdk : Sdk⦄ where
  open sdk use {F64, PercentageCapped, margin_as_i64}

  pub record SimulatedTradeExecutorConfig : Type 0 where
    pub trade_max_running_qtd : ℕ
    pub fee_perc : PercentageCapped
    pub trailing_stoploss_step_size : PercentageCapped

  pub record SimulatedTradeExecutorState : Type 0 where
    pub time : DateTime
    pub market_price : F64
    pub balance : ℤ
    pub last_trade_time : Option DateTime
    pub trigger : PriceTrigger
    pub running_map : RunningTradesMap
    pub funding_fees : ℤ
    pub realized_pl : ℤ
    pub closed_history : ClosedTradeHistory
    pub closed_fees : ℕ
    pub cross_position : SimulatedCrossPosition

  abbrev pub Outcome : Type 0 → Type 0
  Outcome A = SimulatedTradeExecutorState × Result A SimulatedTradeExecutorError

  -- An operation that writes the state only when nothing has failed.
  abbrev pub commit :
      {A : Type 0}
      → SimulatedTradeExecutorState
      → Result (SimulatedTradeExecutorState × A) SimulatedTradeExecutorError
      → Outcome A
  commit s (ok (s', a)) = (s', ok a)
  commit s (err e) = (s, err e)

  -- `SimulatedTradeExecutor::new`
  pub initial_state :
      OhlcCandleRow → ℕ → Result SimulatedTradeExecutorState SimulatedTradeExecutorError
  initial_state start_candle start_balance = do
    cross_position ← cross_initial
    ok (record {
      time = start_candle.time;
      market_price = start_candle.open_price;
      balance = as_i64 start_balance;
      last_trade_time = none;
      trigger = not_set;
      running_map = empty_map;
      funding_fees = pos 0;
      realized_pl = pos 0;
      closed_history = empty_history;
      closed_fees = 0;
      cross_position = cross_position;
    })

  pub update_time : SimulatedTradeExecutorState → DateTime → Outcome (Unit {0})
  update_time s time =
      if ltb time s.time
      then (s, err (time_sequence_violation time s.time))
      else (record s { time = time }, ok tt)

  -- The variables that the loops over the running trades carry.
  pub record Tally : Type 0 where
    pub new_balance : ℤ
    pub new_funding_fees : ℤ
    pub new_realized_pl : ℤ
    pub new_closed_fees : ℕ
    pub new_last_trade_time : Option DateTime
    pub closed_trades : List SimulatedTradeClosed
    pub new_trigger : PriceTrigger
    pub new_running_map : RunningTradesMap

  unfoldable pub start_tally : SimulatedTradeExecutorState → Option DateTime → Tally
  start_tally s last_trade_time = record {
    new_balance = s.balance;
    new_funding_fees = s.funding_fees;
    new_realized_pl = s.realized_pl;
    new_closed_fees = s.closed_fees;
    new_last_trade_time = last_trade_time;
    closed_trades = [];
    new_trigger = not_set;
    new_running_map = empty_map;
  }

  -- What a closed trade returns to the balance: margin, maintenance margin, profit, less its fee.
  unfoldable pub proceeds : SimulatedTradeClosed → ℤ
  proceeds c =
      i64_add
        (i64_sub (i64_add (margin_as_i64 c.margin) (closed_maintenance_margin c))
          (as_i64 c.closing_fee))
        (closed_pl c)

  -- The lines that every loop runs for a trade that it closes.
  unfoldable pub book_closed : Tally → SimulatedTradeClosed → Option DateTime → Tally
  book_closed a c last_trade_time = record a {
    new_balance = i64_add a.new_balance (proceeds c);
    new_realized_pl = i64_add a.new_realized_pl (closed_pl c);
    new_closed_fees = u64_add a.new_closed_fees (u64_add c.opening_fee c.closing_fee);
    new_last_trade_time = last_trade_time;
    closed_trades = a.closed_trades ++ (c ∷ []);
  }

  -- The lines that every loop runs for a trade that goes on.
  unfoldable pub keep_running :
      SimulatedTradeExecutorConfig
      → Tally
      → SimulatedTradeRunning
      → Option TradeTrailingStoploss
      → Result Tally SimulatedTradeExecutorError
  keep_running cfg a t tsl = do
    trigger ←
        map_err price_trigger_update
          (trigger_update a.new_trigger cfg.trailing_stoploss_step_size t tsl)
    ok (record a { new_trigger = trigger; new_running_map = add a.new_running_map t tsl })

  -- Closed trades go into the history one by one; an error keeps those that went before.
  unfoldable pub add_closed :
      ClosedTradeHistory
      → List SimulatedTradeClosed
      → ClosedTradeHistory × Result (Unit {0}) SimulatedTradeExecutorError
  add_closed h [] = (h, ok tt)
  add_closed h (c ∷ cs) = elim (history_add h c) [
    | ok h' ↦ add_closed h' cs
    | err e ↦ (h, err (closed_history_update e))
  ]
