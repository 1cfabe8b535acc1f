-- ===== src/Trade/Executor/Open.antt =====
-- `SimulatedTradeExecutor::create_running`. The id that `Uuid::new_v4()` draws is an argument.
use quantoxide.Prelude.{Option, Result, err, if◌then◌else◌, leb, map_err, none, ok, some, ℕ, ◌>>=◌}
use quantoxide.Prelude.Int.{ltb_ℤ, ℤ}
use quantoxide.Prelude.Machine.{as_i64, i64_add, i64_sub}
use quantoxide.Sdk.{Sdk, TradeSide}
use quantoxide.Trade.Error.{
  SimulatedTradeExecutorError, TradeCoreError, balance_too_low, invalid_market_price,
  max_running_trades_reached, price_trigger_update, stoploss_evaluation,
}
use quantoxide.Trade.Executor.{Outcome, SimulatedTradeExecutorConfig, SimulatedTradeExecutorState}
use quantoxide.Trade.RunningMap.{add, len}
use quantoxide.Trade.Simulated.{SimulatedTradeRunning, maintenance_margin, new_trade}
use quantoxide.Trade.Stoploss.{Stoploss, TradeTrailingStoploss, evaluate}
use quantoxide.Trade.Trigger.{PriceTrigger, trigger_update}

module _ ⦃sdk : Sdk⦄ where
  open sdk use {Price, price_round, margin_as_i64, Leverage, TradeSize, ClientId}

  unfoldable pub evaluated_stoploss :
      SimulatedTradeExecutorConfig
      → TradeSide
      → Price
      → Option Stoploss
      → Result (Option Price × Option TradeTrailingStoploss) SimulatedTradeExecutorError
  evaluated_stoploss cfg side market_price none = ok (none, none)
  evaluated_stoploss cfg side market_price (some stoploss) = do
    (stoploss_price, tsl) ←
        map_err stoploss_evaluation
          (evaluate stoploss cfg.trailing_stoploss_step_size side market_price)
    ok (some stoploss_price, tsl)

  -- `trade.margin().as_i64() + trade.maintenance_margin()`
  unfoldable pub balance_delta : SimulatedTradeRunning → ℤ
  balance_delta t = i64_add (margin_as_i64 t.margin) (maintenance_margin t)

  -- What opening the trade takes from the balance.
  unfoldable pub opening_cost : SimulatedTradeRunning → ℤ
  opening_cost t = i64_add (balance_delta t) (as_i64 t.opening_fee)

  -- The state once the trade runs.
  unfoldable pub opened :
      SimulatedTradeExecutorState
      → SimulatedTradeRunning
      → Option TradeTrailingStoploss
      → PriceTrigger
      → SimulatedTradeExecutorState
  opened s t tsl trigger = record s {
    balance = i64_sub s.balance (opening_cost t);
    last_trade_time = some t.entry_time;
    trigger = trigger;
    running_map = add s.running_map t tsl;
  }

  -- The balance and the last trade's time are written before the trigger is updated.
  unfoldable pub admit_with :
      SimulatedTradeExecutorState
      → SimulatedTradeRunning
      → Option TradeTrailingStoploss
      → Result PriceTrigger TradeCoreError
      → Outcome ℕ
  admit_with s t tsl (ok trigger) = (opened s t tsl trigger, ok t.id)
  admit_with s t tsl (err e) = (
    record s { balance = i64_sub s.balance (opening_cost t); last_trade_time = some t.entry_time },
    err (price_trigger_update e),
  )

  unfoldable pub admit :
      SimulatedTradeExecutorConfig
      → SimulatedTradeExecutorState
      → SimulatedTradeRunning
      → Option TradeTrailingStoploss
      → Outcome ℕ
  admit cfg s t tsl =
      admit_with s t tsl (trigger_update s.trigger cfg.trailing_stoploss_step_size t tsl)

  unfoldable pub admit_checked :
      SimulatedTradeExecutorConfig
      → SimulatedTradeExecutorState
      → SimulatedTradeRunning
      → Option TradeTrailingStoploss
      → Outcome ℕ
  admit_checked cfg s t tsl =
      if ltb_ℤ s.balance (balance_delta t)
      then (s, err balance_too_low)
      else if leb cfg.trade_max_running_qtd (len s.running_map)
      then (s, err (max_running_trades_reached cfg.trade_max_running_qtd))
      else admit cfg s t tsl

  unfoldable pub built_trade :
      SimulatedTradeExecutorConfig
      → SimulatedTradeExecutorState
      → ℕ
      → TradeSide
      → TradeSize
      → Leverage
      → Option Stoploss
      → Option Price
      → Option ClientId
      → Result (SimulatedTradeRunning × Option TradeTrailingStoploss) SimulatedTradeExecutorError
  built_trade cfg s id side size leverage stoploss takeprofit client_id = do
    market_price ← map_err invalid_market_price (price_round s.market_price)
    (stoploss_price, tsl) ← evaluated_stoploss cfg side market_price stoploss
    t ←
        new_trade id side size leverage s.time market_price stoploss_price takeprofit cfg.fee_perc
          client_id
    ok (t, tsl)

  unfoldable pub create_with :
      SimulatedTradeExecutorConfig
      → SimulatedTradeExecutorState
      → Result (SimulatedTradeRunning × Option TradeTrailingStoploss) SimulatedTradeExecutorError
      → Outcome ℕ
  create_with cfg s (ok (t, tsl)) = admit_checked cfg s t tsl
  create_with cfg s (err e) = (s, err e)

  unfoldable pub create_running :
      SimulatedTradeExecutorConfig
      → SimulatedTradeExecutorState
      → ℕ
      → TradeSide
      → TradeSize
      → Leverage
      → Option Stoploss
      → Option Price
      → Option ClientId
      → Outcome ℕ
  create_running cfg s id side size leverage stoploss takeprofit client_id =
      create_with cfg s (built_trade cfg s id side size leverage stoploss takeprofit client_id)
