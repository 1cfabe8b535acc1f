-- ===== src/Trade/Cross/Funding.antt =====
-- `SimulatedCrossPosition::apply_funding_settlement` (src/trade/backtest/executor/models.rs).
use quantoxide.Db.{FundingSettlementRow}
use quantoxide.Prelude.{
  Bool, Result, err, false, if◌then◌else◌, leb, none, not, ok, ok_or, true, ℕ, ◌&&◌, ◌>>=◌,
}
use quantoxide.Prelude.Int.{ltb_ℤ, pos, pos_part, ℤ, ◌+ℤ◌}
use quantoxide.Prelude.Machine.{i64_checked, i64_checked_neg}
use quantoxide.Sdk.{CrossExposure, Sdk, neutral, running}
use quantoxide.Trade.Cross.{
  SimulatedCrossPosition, apply_amount_to_margin, cross_close, cross_new, est_free_margin,
  is_coherent,
}
use quantoxide.Trade.Error.{
  SimulatedTradeExecutorError, cross_exposure_validation, cross_position_overflow,
}
use quantoxide.Trade.Simulated.{funding_fee_of, raw_funding_fee}

module _ ⦃sdk : Sdk⦄ where
  open sdk use {
    F64, Price, price_bounded, PercentageCapped, cross_as_f64, CrossExposureRunning, exposure_side,
    exposure_quantity, as_running_params,
  }

  -- The closure `update_margin`: the fee is taken from the margin, revenue is added.
  unfoldable pub margin_after_fee : ℕ → ℤ → Result ℕ SimulatedTradeExecutorError
  margin_after_fee margin fee = do
    negated ← ok_or (i64_checked_neg fee) cross_position_overflow
    apply_amount_to_margin margin negated

  -- The closure `force_close`.
  unfoldable pub force_close :
      SimulatedCrossPosition
      → Price
      → PercentageCapped
      → ℤ
      → ℤ
      → Result (SimulatedCrossPosition × ℤ × Bool) SimulatedTradeExecutorError
  force_close p market_price fee_perc fee new_session_funding_fees = do
    closed ← cross_close p market_price fee_perc
    remaining_margin ← margin_after_fee closed.margin fee
    final ←
        cross_new remaining_margin closed.leverage none closed.trading_fees new_session_funding_fees
          closed.realized_pl
    ok (final, fee, true)

  -- What follows `Self::new`: only a refused exposure leads to the forced close.
  unfoldable pub settle_with :
      Result SimulatedCrossPosition SimulatedTradeExecutorError
      → SimulatedCrossPosition
      → Price
      → PercentageCapped
      → ℤ
      → ℤ
      → Result (SimulatedCrossPosition × ℤ × Bool) SimulatedTradeExecutorError
  settle_with (ok position) p market_price fee_perc fee new_session_funding_fees =
      if not (is_coherent position market_price)
      then force_close p market_price fee_perc fee new_session_funding_fees
      else ok (position, fee, false)
  settle_with (err (cross_exposure_validation _)) p market_price fee_perc fee
        new_session_funding_fees =
      force_close p market_price fee_perc fee new_session_funding_fees
  settle_with (err e) p market_price fee_perc fee new_session_funding_fees = err e

  unfoldable pub settle_running :
      SimulatedCrossPosition
      → Price
      → PercentageCapped
      → ℤ
      → Result (SimulatedCrossPosition × ℤ × Bool) SimulatedTradeExecutorError
  settle_running p market_price fee_perc fee = do
    new_session_funding_fees ←
        ok_or (i64_checked (p.session_funding_fees +ℤ fee)) cross_position_overflow
    if ltb_ℤ (pos 0) fee && leb (est_free_margin p market_price) (pos_part fee)
        then force_close p market_price fee_perc fee new_session_funding_fees
        else do
          new_margin ← margin_after_fee p.margin fee
          settle_with
              (cross_new new_margin p.leverage (as_running_params p.exposure) p.trading_fees
                new_session_funding_fees p.realized_pl)
              p market_price fee_perc fee new_session_funding_fees

  unfoldable pub settle_on :
      CrossExposure CrossExposureRunning
      → SimulatedCrossPosition
      → F64
      → FundingSettlementRow
      → PercentageCapped
      → Result (SimulatedCrossPosition × ℤ × Bool) SimulatedTradeExecutorError
  settle_on neutral p market_price settlement fee_perc = ok (p, pos 0, false)
  settle_on (running e) p market_price settlement fee_perc =
      settle_running p (price_bounded market_price) fee_perc (
        funding_fee_of (exposure_side e)
          (raw_funding_fee (cross_as_f64 (exposure_quantity e)) settlement))

  unfoldable pub cross_funding_settlement :
      SimulatedCrossPosition
      → F64
      → FundingSettlementRow
      → PercentageCapped
      → Result (SimulatedCrossPosition × ℤ × Bool) SimulatedTradeExecutorError
  cross_funding_settlement p market_price settlement fee_perc =
      settle_on p.exposure p market_price settlement fee_perc
