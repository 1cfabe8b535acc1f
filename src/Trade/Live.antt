-- ===== src/Trade/Live.antt =====
-- The live side of src/trade/live: what of the `lnm-sdk` crate only it uses, and its errors. A
-- `Trade`, a `CrossPosition` and a `CrossOrder` of the crate are opaque, with their getters.
pub mod CrossPosition
pub mod ExecutorState
pub mod Session
use quantoxide.Prelude.{Bool, List, Option, Result, ℕ}
use quantoxide.Prelude.Int.{ℤ}
use quantoxide.Sdk.{CrossExposure, Sdk, TradeSide}
use quantoxide.Time.{DateTime}
use quantoxide.Trade.Error.{TradeCoreError}

module _ ⦃sdk : Sdk⦄ where
  open sdk use {
    Price, Margin, OrderQuantity, Leverage, ClientId, CrossLeverage, CrossExposureRunning,
    CrossExposureValidationError,
  }

  pub record LiveSdk : Type 1 where
    pub RestApiError : Type 0
    pub Trade : Type 0
    pub trade_id : Trade → ℕ
    pub trade_side : Trade → TradeSide
    pub trade_opening_fee : Trade → ℕ
    pub trade_closing_fee : Trade → ℕ
    pub trade_maintenance_margin : Trade → ℤ
    pub trade_quantity : Trade → OrderQuantity
    pub trade_margin : Trade → Margin
    pub trade_leverage : Trade → Leverage
    pub trade_price : Trade → Price
    pub trade_liquidation : Trade → Price
    pub trade_stoploss : Trade → Option Price
    pub trade_takeprofit : Trade → Option Price
    pub trade_exit_price : Trade → Option Price
    pub trade_created_at : Trade → DateTime
    pub trade_closed_at : Trade → Option DateTime
    pub trade_running : Trade → Bool
    pub trade_closed : Trade → Bool
    pub trade_pl : Trade → ℤ
    pub trade_sum_funding_fees : Trade → ℤ
    pub trade_client_id : Trade → Option ClientId
    pub CrossPosition : Type 0
    pub position_id : CrossPosition → ℕ
    pub position_margin : CrossPosition → ℕ
    pub position_leverage : CrossPosition → CrossLeverage
    pub position_exposure :
        CrossPosition → Result (CrossExposure CrossExposureRunning) CrossExposureValidationError
    pub position_funding_fees : CrossPosition → ℤ
    pub position_trading_fees : CrossPosition → ℕ
    pub CrossOrder : Type 0
    pub order_filled_at : CrossOrder → Option DateTime
    pub order_created_at : CrossOrder → DateTime

module _ ⦃sdk : Sdk⦄ ⦃live : LiveSdk⦄ where
  open sdk use {CrossExposureValidationError}
  open live use {RestApiError}

  pub data ExecutorActionError : Type 0 where
    rest_api : RestApiError → ExecutorActionError
    cross_balance_too_low : ExecutorActionError
    cross_balance_too_high : ExecutorActionError
    db_is_empty : ExecutorActionError
    live_stoploss_evaluation : TradeCoreError → ExecutorActionError
    new_trade_not_running : ℕ → ExecutorActionError
    trade_already_registered : ℕ → ExecutorActionError
    live_trigger_update : TradeCoreError → ExecutorActionError
    live_history_update : TradeCoreError → ExecutorActionError
    updated_trades_not_running : List ℕ → ExecutorActionError
    live_trade_not_closed : ℕ → ExecutorActionError
    trade_not_registered : ℕ → ExecutorActionError
    unexpected_closed_trade : ℕ → ExecutorActionError
    closed_trade_not_confirmed : ℕ → ExecutorActionError
    live_position_validation : CrossExposureValidationError → ExecutorActionError
    trading_fees_decreased : ℕ → ℕ → ExecutorActionError
    live_position_overflow : ExecutorActionError
