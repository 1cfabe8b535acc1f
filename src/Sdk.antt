-- ===== src/Sdk.antt =====
-- The part of the `lnm-sdk` crate and of `f64` that the program calls: opaque types, their methods
-- and the functions of `trade_util`. A theorem that relies on what a method does takes that as a
-- named hypothesis of Sdk/Laws.antt.
pub mod Laws
use quantoxide.Float.{Float}
use quantoxide.Prelude.{Bool, Option, Result, ℕ, ◌*◌}
use quantoxide.Prelude.Int.{ℤ}

-- The enums of the crate whose cases the source matches on.
pub data TradeSide : Type 0 where
  buy sell : TradeSide

pub data LeverageValidationError : Type 0 where
  too_low too_high not_a_number other_error : LeverageValidationError

pub data CrossExposure (Running : Type 0) : Type 0 where
  neutral : CrossExposure Running
  running : Running → CrossExposure Running

pub record Sdk : Type 1 where
  pub float : Float
  pub open float use *
  -- Prices and percentages.
  pub Price : Type 0
  pub PriceValidationError : Type 0
  pub price_le : Price → Price → Bool
  pub price_as_f64 : Price → F64
  pub price_minimum : Price
  pub price_maximum : Price
  pub price_round : F64 → Result Price PriceValidationError
  pub price_round_up : F64 → Result Price PriceValidationError
  pub price_round_down : F64 → Result Price PriceValidationError
  pub price_bounded : F64 → Price
  pub Percentage : Type 0
  pub PercentageCapped : Type 0
  pub percentage : PercentageCapped → Percentage  -- `into`
  pub capped_le : PercentageCapped → PercentageCapped → Bool
  pub capped_as_f64 : PercentageCapped → F64
  pub apply_gain : Price → Percentage → Result Price PriceValidationError
  pub apply_discount : Price → PercentageCapped → Result Price PriceValidationError
  pub sats_per_btc : F64
  -- Margins, quantities, leverages of isolated trades.
  pub Margin : Type 0
  pub margin_as_u64 : Margin → ℕ
  pub margin_as_i64 : Margin → ℤ
  pub margin_try_sub : Margin → ℤ → Option Margin
  pub OrderQuantity : Type 0
  pub quantity_as_f64 : OrderQuantity → F64
  pub quantity_as_u64 : OrderQuantity → ℕ
  pub Leverage : Type 0
  pub leverage_minimum : Leverage
  pub leverage_try_calculate :
      OrderQuantity → Margin → Price → Result Leverage LeverageValidationError
  pub TradeSize : Type 0
  pub ClientId : Type 0
  pub TradeValidationError : Type 0
  pub evaluate_open_trade_params :
      TradeSide
      → TradeSize
      → Leverage
      → Price
      → Option Price
      → Option Price
      → PercentageCapped
      → Result (OrderQuantity × Margin × Price × ℕ × ℕ) TradeValidationError
  pub evaluate_new_stoploss :
      TradeSide → Price → Option Price → Price → Price → Result (Unit {0}) TradeValidationError
  pub evaluate_added_margin :
      TradeSide
      → OrderQuantity
      → Price
      → Margin
      → ℕ
      → Result (Margin × Leverage × Price) TradeValidationError
  pub evaluate_cash_in :
      TradeSide
      → OrderQuantity
      → Margin
      → Price
      → Option Price
      → Price
      → ℕ
      → Result (Price × Margin × Leverage × Price × Option Price) TradeValidationError
  pub est_liquidation_from_leverage : TradeSide → OrderQuantity → Price → Leverage → Price
  pub evaluate_order_fee : PercentageCapped → OrderQuantity → Price → ℕ
  pub estimate_pl : TradeSide → OrderQuantity → Price → Price → F64
  -- The cross position.
  pub CrossQuantity : Type 0
  pub CrossQuantityValidationError : Type 0
  pub cross_of_order : OrderQuantity → CrossQuantity  -- `into`
  pub cross_as_u64 : CrossQuantity → ℕ
  pub cross_as_i64 : CrossQuantity → ℤ
  pub cross_as_f64 : CrossQuantity → F64
  pub cross_try_from : ℕ → Result CrossQuantity CrossQuantityValidationError
  pub cross_try_add :
      CrossQuantity → CrossQuantity → Result CrossQuantity CrossQuantityValidationError
  pub cross_try_sub :
      CrossQuantity → CrossQuantity → Result CrossQuantity CrossQuantityValidationError
  pub CrossLeverage : Type 0
  pub cross_leverage_minimum : CrossLeverage
  pub CrossExposureRunning : Type 0
  pub exposure_side : CrossExposureRunning → TradeSide
  pub exposure_quantity : CrossExposureRunning → CrossQuantity
  pub exposure_entry_price : CrossExposureRunning → Price
  pub exposure_liquidation : CrossExposureRunning → Price
  pub exposure_running_margin : CrossExposureRunning → ℕ  -- `running_margin().as_u64()`
  pub exposure_maintenance_margin : CrossExposureRunning → ℕ  -- `maintenance_margin().as_u64()`
  pub CrossExposureValidationError : Type 0
  pub cross_exposure_new :
      ℕ
      → CrossLeverage
      → Option (TradeSide × CrossQuantity × Price)
      → Result (CrossExposure CrossExposureRunning) CrossExposureValidationError
  pub as_running_params :
      CrossExposure CrossExposureRunning → Option (TradeSide × CrossQuantity × Price)
  pub evaluate_cross_order_fee : PercentageCapped → CrossQuantity → Price → ℕ
  pub estimate_cross_pl : TradeSide → CrossQuantity → Price → Price → F64
  pub aggregate_cross_entry_price : CrossQuantity → Price → CrossQuantity → Price → Price
