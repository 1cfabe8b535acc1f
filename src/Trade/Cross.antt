-- ===== src/Trade/Cross.antt =====
-- `SimulatedCrossPosition` of src/trade/backtest/executor/models.rs, with the estimates of
-- `CrossPositionCore` (src/trade/core.rs) that it uses.
pub mod Order
pub mod Estimate
pub mod EstimateAgrees
pub mod Funding
pub mod FundingEffect
pub mod Accounting
pub mod NetQuantity
pub mod OrderEffect
use Prim.Native.Nat.{min}
use quantoxide.Db.{OhlcCandleRow}
use quantoxide.Prelude.{
  Bool, Option, Result, false, if◌then◌else◌, ltb, map_err, none, ok, ok_or, true, ℕ, ◌&&◌, ◌+◌,
  ◌-◌, ◌>>=◌,
}
use quantoxide.Prelude.Int.{ltb_ℤ, neg_part, pos, pos_part, ℤ, ◌+ℤ◌, ◌-ℤ◌}
use quantoxide.Prelude.Machine.{i64_checked, i64_neg, i64_try_from, u64_checked, u64_mod}
use quantoxide.Sdk.{CrossExposure, Sdk, TradeSide, buy, neutral, running, sell}
use quantoxide.Trade.Error.{
  SimulatedTradeExecutorError, cross_exposure_validation, cross_position_overflow, panicked,
}
use quantoxide.Trade.Trigger.{price_lt}

module _ ⦃sdk : Sdk⦄ where
  open sdk use {
    F64, f64_le, f64_floor, f64_as_i64, Price, price_as_f64, PercentageCapped, CrossQuantity,
    cross_as_i64, CrossLeverage, cross_leverage_minimum, CrossExposureRunning, exposure_side,
    exposure_quantity, exposure_entry_price, exposure_liquidation, exposure_running_margin,
    exposure_maintenance_margin, cross_exposure_new, as_running_params, evaluate_cross_order_fee,
    estimate_cross_pl,
  }

  abbrev pub side_eq : TradeSide → TradeSide → Bool
  side_eq buy buy = true
  side_eq sell sell = true
  side_eq _ _ = false

  pub record SimulatedCrossPosition : Type 0 where
    pub margin : ℕ
    pub leverage : CrossLeverage
    pub exposure : CrossExposure CrossExposureRunning
    pub trading_fees : ℕ
    pub session_funding_fees : ℤ
    pub realized_pl : ℤ

  unfoldable pub cross_new :
      ℕ
      → CrossLeverage
      → Option (TradeSide × CrossQuantity × Price)
      → ℕ
      → ℤ
      → ℤ
      → Result SimulatedCrossPosition SimulatedTradeExecutorError
  cross_new margin leverage exposure_running trading_fees session_funding_fees realized_pl = do
    exposure ←
        map_err cross_exposure_validation (cross_exposure_new margin leverage exposure_running)
    ok (record {
      margin = margin;
      leverage = leverage;
      exposure = exposure;
      trading_fees = trading_fees;
      session_funding_fees = session_funding_fees;
      realized_pl = realized_pl;
    })

  -- `initial`; its `expect` panics where the crate refuses an empty position.
  pub cross_initial : Result SimulatedCrossPosition SimulatedTradeExecutorError
  cross_initial =
      map_err (λ _. panicked) (cross_new 0 cross_leverage_minimum none 0 (pos 0) (pos 0))

  unfoldable pub apply_amount_to_margin : ℕ → ℤ → Result ℕ SimulatedTradeExecutorError
  apply_amount_to_margin margin amount =
      if ltb_ℤ amount (pos 0)
      then ok (margin - neg_part amount)
      else ok_or (u64_checked (margin + pos_part amount)) cross_position_overflow

  -- `CrossPositionCore`, on the exposure.
  unfoldable pub signed_quantity : TradeSide → CrossQuantity → ℤ
  signed_quantity buy q = cross_as_i64 q
  signed_quantity sell q = i64_neg (cross_as_i64 q)

  unfoldable pub exposure_signed : CrossExposure CrossExposureRunning → ℤ
  exposure_signed neutral = pos 0
  exposure_signed (running e) = signed_quantity (exposure_side e) (exposure_quantity e)

  unfoldable pub cross_quantity : SimulatedCrossPosition → ℤ
  cross_quantity p = exposure_signed p.exposure

  unfoldable pub running_margin_of : CrossExposure CrossExposureRunning → ℕ
  running_margin_of neutral = 0
  running_margin_of (running e) = exposure_running_margin e

  unfoldable pub maintenance_margin_of : CrossExposure CrossExposureRunning → ℕ
  maintenance_margin_of neutral = 0
  maintenance_margin_of (running e) = exposure_maintenance_margin e

  unfoldable pub pl_floor : TradeSide → CrossQuantity → Price → Price → ℤ
  pl_floor side q entry price = f64_as_i64 (f64_floor (estimate_cross_pl side q entry price))

  unfoldable pub running_pl_of : CrossExposure CrossExposureRunning → Price → ℤ
  running_pl_of neutral market_price = pos 0
  running_pl_of (running e) market_price =
      pl_floor (exposure_side e) (exposure_quantity e) (exposure_entry_price e) market_price

  -- `est_running_pl`, `est_net_value`, `est_free_margin`
  unfoldable pub est_running_pl : SimulatedCrossPosition → Price → ℤ
  est_running_pl p market_price = running_pl_of p.exposure market_price

  pub saturating_add_signed : ℕ → ℤ → ℕ
  saturating_add_signed a z = min (a + pos_part z - neg_part z) (u64_mod - 1)

  pub est_net_value : SimulatedCrossPosition → Price → ℕ
  est_net_value p market_price = saturating_add_signed p.margin (est_running_pl p market_price)

  -- The loss is `pl.min(0).unsigned_abs()`.
  unfoldable pub est_free_margin : SimulatedCrossPosition → Price → ℕ
  est_free_margin p market_price =
      let loss = neg_part (est_running_pl p market_price) in
      let excess_loss = loss - running_margin_of p.exposure in
      p.margin - running_margin_of p.exposure - maintenance_margin_of p.exposure - excess_loss

  unfoldable pub is_liquid : TradeSide → Price → Price → Bool
  is_liquid buy market_price liquidation = price_lt liquidation market_price
  is_liquid sell market_price liquidation = price_lt market_price liquidation

  unfoldable pub coherent_exposure : CrossExposure CrossExposureRunning → Price → ℕ → Bool
  coherent_exposure neutral market_price free_margin = true
  coherent_exposure (running e) market_price free_margin =
      is_liquid (exposure_side e) market_price (exposure_liquidation e) && ltb 0 free_margin

  unfoldable pub is_coherent : SimulatedCrossPosition → Price → Bool
  is_coherent p market_price =
      coherent_exposure p.exposure market_price (est_free_margin p market_price)

  unfoldable pub with_margin :
      SimulatedCrossPosition → ℕ → Result SimulatedCrossPosition SimulatedTradeExecutorError
  with_margin p new_margin =
      cross_new new_margin p.leverage (as_running_params p.exposure) p.trading_fees
        p.session_funding_fees p.realized_pl

  pub with_leverage :
      SimulatedCrossPosition
      → CrossLeverage
      → Result SimulatedCrossPosition SimulatedTradeExecutorError
  with_leverage p new_leverage =
      cross_new p.margin new_leverage (as_running_params p.exposure) p.trading_fees
        p.session_funding_fees p.realized_pl

  unfoldable pub close_exposure :
      SimulatedCrossPosition
      → CrossExposureRunning
      → Price
      → PercentageCapped
      → Result SimulatedCrossPosition SimulatedTradeExecutorError
  close_exposure p e close_price fee_perc = do
    let close_fee = evaluate_cross_order_fee fee_perc (exposure_quantity e) close_price
    close_fee_i64 ← ok_or (i64_try_from close_fee) cross_position_overflow
    let close_pl =
        pl_floor (exposure_side e) (exposure_quantity e) (exposure_entry_price e) close_price
    margin_delta ← ok_or (i64_checked (close_pl -ℤ close_fee_i64)) cross_position_overflow
    remaining_margin ← apply_amount_to_margin p.margin margin_delta
    trading_fees ← ok_or (u64_checked (p.trading_fees + close_fee)) cross_position_overflow
    realized_pl ← ok_or (i64_checked (p.realized_pl +ℤ close_pl)) cross_position_overflow
    cross_new remaining_margin p.leverage none trading_fees p.session_funding_fees realized_pl

  unfoldable pub close_on :
      CrossExposure CrossExposureRunning
      → SimulatedCrossPosition
      → Price
      → PercentageCapped
      → Result SimulatedCrossPosition SimulatedTradeExecutorError
  close_on neutral p close_price fee_perc = ok p
  close_on (running e) p close_price fee_perc = close_exposure p e close_price fee_perc

  unfoldable pub cross_close :
      SimulatedCrossPosition
      → Price
      → PercentageCapped
      → Result SimulatedCrossPosition SimulatedTradeExecutorError
  cross_close p close_price fee_perc = close_on p.exposure p close_price fee_perc

  -- `liquidation_reached` and `liquidate`
  unfoldable pub liquidation_reached_on : CrossExposure CrossExposureRunning → F64 → F64 → Bool
  liquidation_reached_on neutral low high = false
  liquidation_reached_on (running e) low high = elim (exposure_side e) [
    | buy ↦ f64_le low (price_as_f64 (exposure_liquidation e))
    | sell ↦ f64_le (price_as_f64 (exposure_liquidation e)) high
  ]

  unfoldable pub liquidation_reached : SimulatedCrossPosition → OhlcCandleRow → Bool
  liquidation_reached p candle = liquidation_reached_on p.exposure candle.low candle.high

  unfoldable pub liquidate_on :
      CrossExposure CrossExposureRunning
      → SimulatedCrossPosition
      → PercentageCapped
      → Result SimulatedCrossPosition SimulatedTradeExecutorError
  liquidate_on neutral p fee_perc = ok p
  liquidate_on (running e) p fee_perc = cross_close p (exposure_liquidation e) fee_perc

  unfoldable pub liquidate :
      SimulatedCrossPosition
      → PercentageCapped
      → Result SimulatedCrossPosition SimulatedTradeExecutorError
  liquidate p fee_perc = liquidate_on p.exposure p fee_perc
