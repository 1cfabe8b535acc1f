-- ===== src/Trade/Error.antt =====
-- src/trade/error.rs and src/trade/backtest/executor/error.rs: the errors that the code modelled
-- here can return.
use quantoxide.Prelude.{ℕ}
use quantoxide.Sdk.{Sdk}

module _ ⦃sdk : Sdk⦄ where
  open sdk use {
    F64, Price, PriceValidationError, Percentage, PercentageCapped, TradeValidationError,
    CrossQuantityValidationError, CrossExposureValidationError,
  }

  pub data TradeCoreError : Type 0 where
    trade_not_closed : ℕ → TradeCoreError
    invalid_stoploss_smaller_than_trailing_step_size :
        PercentageCapped → PercentageCapped → TradeCoreError
    invalid_price_apply_discount : Price → PercentageCapped → PriceValidationError → TradeCoreError
    invalid_price_apply_gain : Price → Percentage → PriceValidationError → TradeCoreError
    no_next_trigger_trade_stoploss_not_set : ℕ → TradeCoreError
    invalid_price_rounding : F64 → PriceValidationError → TradeCoreError

  pub data SimulatedTradeExecutorError : Type 0 where
    invalid_market_price : PriceValidationError → SimulatedTradeExecutorError
    time_sequence_violation : ℕ → ℕ → SimulatedTradeExecutorError
    max_running_trades_reached : ℕ → SimulatedTradeExecutorError
    tick_update_price_validation : PriceValidationError → SimulatedTradeExecutorError
    trade_validation : TradeValidationError → SimulatedTradeExecutorError
    cross_quantity_validation : CrossQuantityValidationError → SimulatedTradeExecutorError
    cross_exposure_validation : CrossExposureValidationError → SimulatedTradeExecutorError
    balance_too_low : SimulatedTradeExecutorError
    cross_position_overflow : SimulatedTradeExecutorError
    cross_free_margin_too_low : SimulatedTradeExecutorError
    cross_position_incoherent : SimulatedTradeExecutorError
    trade_not_running : ℕ → SimulatedTradeExecutorError
    price_trigger_update : TradeCoreError → SimulatedTradeExecutorError
    stoploss_evaluation : TradeCoreError → SimulatedTradeExecutorError
    closed_history_update : TradeCoreError → SimulatedTradeExecutorError
    -- A panic of `unreachable!`, which is no constructor in the source.
    panicked : SimulatedTradeExecutorError
