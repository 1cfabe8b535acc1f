-- ===== src/Trade/Stoploss.antt =====
-- `Stoploss` and the order requests of src/trade/core.rs. `TradeTrailingStoploss` is the
-- percentage that it wraps.
use quantoxide.Prelude.{Option, Result, err, if◌then◌else◌, map_err, none, not, ok, some, ◌>>=◌}
use quantoxide.Sdk.{Sdk, TradeSide, buy, sell}
use quantoxide.Trade.Error.{
  TradeCoreError, invalid_price_apply_discount, invalid_price_apply_gain,
  invalid_stoploss_smaller_than_trailing_step_size,
}

module _ ⦃sdk : Sdk⦄ where
  open sdk use {Price, PercentageCapped, percentage, capped_le, apply_gain, apply_discount}

  abbrev pub TradeTrailingStoploss : Type 0
  TradeTrailingStoploss = PercentageCapped

  pub data Stoploss : Type 0 where
    fixed : Price → Stoploss
    trailing : PercentageCapped → Stoploss

  -- The price at which a trailing stoploss starts.
  unfoldable pub initial_stoploss_price :
      PercentageCapped → TradeSide → Price → Result Price TradeCoreError
  initial_stoploss_price tsl buy market_price =
      map_err (invalid_price_apply_discount market_price tsl) (apply_discount market_price tsl)
  initial_stoploss_price tsl sell market_price =
      map_err (invalid_price_apply_gain market_price (percentage tsl))
        (apply_gain market_price (percentage tsl))

  -- `Stoploss::evaluate`
  unfoldable pub evaluate :
      Stoploss
      → PercentageCapped
      → TradeSide
      → Price
      → Result (Price × Option TradeTrailingStoploss) TradeCoreError
  evaluate (fixed price) tsl_step_size side market_price = ok (price, none)
  evaluate (trailing tsl) tsl_step_size side market_price =
      if not (capped_le tsl_step_size tsl)
      then err (invalid_stoploss_smaller_than_trailing_step_size tsl tsl_step_size)
      else do initial ← initial_stoploss_price tsl side market_price; ok (initial, some tsl)
