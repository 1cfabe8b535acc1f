-- ===== src/Trade/Cross/Order.antt =====
-- `SimulatedCrossPosition::with_market_order` (src/trade/backtest/executor/models.rs): each branch
-- of the method is a function here.
use quantoxide.Prelude.{
  Result, if◌then◌else◌, ltb, map_err, not, ok, ok_or, some, ℕ, ◌&&◌, ◌+◌, ◌==◌, ◌>>=◌,
}
use quantoxide.Prelude.Int.{leb_ℤ, pos, ℤ, ◌+ℤ◌}
use quantoxide.Prelude.Machine.{i64_checked, i64_checked_neg, i64_try_from, u64_checked}
use quantoxide.Sdk.{CrossExposure, Sdk, TradeSide, buy, neutral, running, sell}
use quantoxide.Trade.Cross.{
  SimulatedCrossPosition, apply_amount_to_margin, cross_close, cross_new, pl_floor, side_eq,
}
use quantoxide.Trade.Error.{
  SimulatedTradeExecutorError, cross_position_overflow, cross_quantity_validation,
}

module _ ⦃sdk : Sdk⦄ where
  open sdk use {
    F64, f64_add, f64_sub, f64_div, Price, price_as_f64, price_bounded, PercentageCapped,
    sats_per_btc, CrossQuantity, cross_as_u64, cross_as_f64, cross_try_add, cross_try_sub,
    CrossExposureRunning, exposure_side, exposure_quantity, exposure_entry_price,
    evaluate_cross_order_fee, estimate_cross_pl, aggregate_cross_entry_price,
  }

  -- The margin after the order's fee, and the cumulative trading fees.
  unfoldable pub order_costs :
      SimulatedCrossPosition
      → Price
      → CrossQuantity
      → PercentageCapped
      → Result (ℕ × ℕ) SimulatedTradeExecutorError
  order_costs p market_price order_quantity fee_perc = do
    let order_fee = evaluate_cross_order_fee fee_perc order_quantity market_price
    order_fee_i64 ← ok_or (i64_try_from order_fee) cross_position_overflow
    negated ← ok_or (i64_checked_neg order_fee_i64) cross_position_overflow
    margin_after_order_fee ← apply_amount_to_margin p.margin negated
    fees ← ok_or (u64_checked (p.trading_fees + order_fee)) cross_position_overflow
    ok (margin_after_order_fee, fees)

  unfoldable pub with_running_exposure :
      SimulatedCrossPosition
      → ℕ
      → ℕ
      → TradeSide
      → CrossQuantity
      → Price
      → ℤ
      → Result SimulatedCrossPosition SimulatedTradeExecutorError
  with_running_exposure p fees margin side quantity entry_price realized_pl =
      cross_new margin p.leverage (some (side, quantity, entry_price)) fees p.session_funding_fees
        realized_pl

  -- Same side: the quantities add up and the entry prices are aggregated.
  unfoldable pub increase :
      SimulatedCrossPosition
      → CrossExposureRunning
      → Price
      → CrossQuantity
      → ℕ × ℕ
      → Result SimulatedCrossPosition SimulatedTradeExecutorError
  increase p e market_price order_quantity (margin, fees) = do
    resulting_quantity ←
        map_err cross_quantity_validation (cross_try_add (exposure_quantity e) order_quantity)
    with_running_exposure p fees margin (exposure_side e) resulting_quantity
        (aggregate_cross_entry_price (exposure_quantity e) (exposure_entry_price e) order_quantity
          market_price)
        p.realized_pl

  -- A larger order on the other side books the whole profit or loss and opens the residual.
  unfoldable pub reverse_exposure :
      SimulatedCrossPosition
      → CrossExposureRunning
      → Price
      → TradeSide
      → CrossQuantity
      → ℕ × ℕ
      → Result SimulatedCrossPosition SimulatedTradeExecutorError
  reverse_exposure p e market_price order_side order_quantity (margin_after_order_fee, fees) = do
    let realized =
        pl_floor (exposure_side e) (exposure_quantity e) (exposure_entry_price e) market_price
    margin ← apply_amount_to_margin margin_after_order_fee realized
    resulting_quantity ←
        map_err cross_quantity_validation (cross_try_sub order_quantity (exposure_quantity e))
    new_realized_pl ← ok_or (i64_checked (p.realized_pl +ℤ realized)) cross_position_overflow
    with_running_exposure p fees margin order_side resulting_quantity market_price new_realized_pl

  -- The entry price that carries the loss of a partial reduction.
  unfoldable pub carried_inverse : TradeSide → F64 → F64 → F64
  carried_inverse buy inverse_market_price loss_per_unit =
      f64_add inverse_market_price loss_per_unit
  carried_inverse sell inverse_market_price loss_per_unit =
      f64_sub inverse_market_price loss_per_unit

  unfoldable pub carried_entry_price : CrossExposureRunning → CrossQuantity → Price → Price
  carried_entry_price e resulting_quantity market_price =
      let full_position_pl =
        estimate_cross_pl (exposure_side e) (exposure_quantity e) (exposure_entry_price e)
          market_price in
      let inverse_market_price = f64_div sats_per_btc (price_as_f64 market_price) in
      price_bounded (
        f64_div sats_per_btc (
          carried_inverse (exposure_side e) inverse_market_price
            (f64_div full_position_pl (cross_as_f64 resulting_quantity))))

  -- A smaller order on the other side: a profit is realized, a loss stays in the entry price.
  unfoldable pub reduce_in_profit :
      SimulatedCrossPosition
      → CrossExposureRunning
      → CrossQuantity
      → ℤ
      → ℕ × ℕ
      → Result SimulatedCrossPosition SimulatedTradeExecutorError
  reduce_in_profit p e resulting_quantity realized (margin_after_order_fee, fees) = do
    margin ← apply_amount_to_margin margin_after_order_fee realized
    new_realized_pl ← ok_or (i64_checked (p.realized_pl +ℤ realized)) cross_position_overflow
    with_running_exposure p fees margin (exposure_side e) resulting_quantity
        (exposure_entry_price e) new_realized_pl

  unfoldable pub reduce_in_loss :
      SimulatedCrossPosition
      → CrossExposureRunning
      → Price
      → CrossQuantity
      → ℕ × ℕ
      → Result SimulatedCrossPosition SimulatedTradeExecutorError
  reduce_in_loss p e market_price resulting_quantity (margin_after_order_fee, fees) =
      with_running_exposure p fees margin_after_order_fee (exposure_side e) resulting_quantity
        (carried_entry_price e resulting_quantity market_price) p.realized_pl

  unfoldable pub reduce :
      SimulatedCrossPosition
      → CrossExposureRunning
      → Price
      → CrossQuantity
      → ℕ × ℕ
      → Result SimulatedCrossPosition SimulatedTradeExecutorError
  reduce p e market_price order_quantity costs = do
    resulting_quantity ←
        map_err cross_quantity_validation (cross_try_sub (exposure_quantity e) order_quantity)
    let realized = pl_floor (exposure_side e) order_quantity (exposure_entry_price e) market_price
    if leb_ℤ (pos 0) realized
        then reduce_in_profit p e resulting_quantity realized costs
        else reduce_in_loss p e market_price resulting_quantity costs

  unfoldable pub order_on_running :
      SimulatedCrossPosition
      → CrossExposureRunning
      → Price
      → TradeSide
      → CrossQuantity
      → PercentageCapped
      → Result SimulatedCrossPosition SimulatedTradeExecutorError
  order_on_running p e market_price order_side order_quantity fee_perc =
      let same_side = side_eq (exposure_side e) order_side in
      if not same_side && cross_as_u64 order_quantity == cross_as_u64 (exposure_quantity e)
      then cross_close p market_price fee_perc
      else do
        costs ← order_costs p market_price order_quantity fee_perc
        if same_side
            then increase p e market_price order_quantity costs
            else if ltb (cross_as_u64 (exposure_quantity e)) (cross_as_u64 order_quantity)
            then reverse_exposure p e market_price order_side order_quantity costs
            else reduce p e market_price order_quantity costs

  unfoldable pub order_on_flat :
      SimulatedCrossPosition
      → Price
      → TradeSide
      → CrossQuantity
      → PercentageCapped
      → Result SimulatedCrossPosition SimulatedTradeExecutorError
  order_on_flat p market_price order_side order_quantity fee_perc = do
    (margin, fees) ← order_costs p market_price order_quantity fee_perc
    with_running_exposure p fees margin order_side order_quantity market_price p.realized_pl

  unfoldable pub order_on :
      CrossExposure CrossExposureRunning
      → SimulatedCrossPosition
      → Price
      → TradeSide
      → CrossQuantity
      → PercentageCapped
      → Result SimulatedCrossPosition SimulatedTradeExecutorError
  order_on neutral p market_price order_side order_quantity fee_perc =
      order_on_flat p market_price order_side order_quantity fee_perc
  order_on (running e) p market_price order_side order_quantity fee_perc =
      order_on_running p e market_price order_side order_quantity fee_perc

  unfoldable pub with_market_order :
      SimulatedCrossPosition
      → Price
      → TradeSide
      → CrossQuantity
      → PercentageCapped
      → Result SimulatedCrossPosition SimulatedTradeExecutorError
  with_market_order p market_price order_side order_quantity fee_perc =
      order_on p.exposure p market_price order_side order_quantity fee_perc
