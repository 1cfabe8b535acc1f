-- ===== src/Trade/Live/CrossPosition.antt =====
-- `LiveCrossPosition` of src/trade/live/executor/state/live_trading_session.rs.
pub mod Books
use quantoxide.Prelude.{
  Bool, Result, err, false, if◌then◌else◌, ltb, map_err, ok, ok_or, true, ℕ, ◌-◌, ◌>>=◌,
}
use quantoxide.Prelude.Int.{ℤ, ◌+ℤ◌, ◌-ℤ◌}
use quantoxide.Prelude.Machine.{i64_checked, i64_sub, i64_try_from, u64_checked_sub}
use quantoxide.Sdk.{CrossExposure, Sdk, TradeSide, buy, neutral, running, sell}
use quantoxide.Trade.Live.{
  ExecutorActionError, LiveSdk, live_position_overflow, live_position_validation,
  trading_fees_decreased,
}

module _ ⦃sdk : Sdk⦄ ⦃live : LiveSdk⦄ where
  open sdk use {
    F64, f64_le, price_as_f64, CrossLeverage, CrossExposureRunning, exposure_side,
    exposure_liquidation, CrossExposureValidationError,
  }
  open live use {
    CrossPosition, position_exposure, position_funding_fees, position_id, position_leverage,
    position_margin, position_trading_fees,
  }

  pub record LiveCrossPosition : Type 0 where
    pub id : ℕ
    pub margin : ℕ
    pub leverage : CrossLeverage
    pub exposure : CrossExposure CrossExposureRunning
    pub realized_pl : ℤ
    pub start_funding_fees : ℤ
    pub curr_funding_fees : ℤ
    pub start_trading_fees : ℕ
    pub curr_trading_fees : ℕ

  abbrev pub is_running_exposure : CrossExposure CrossExposureRunning → Bool
  is_running_exposure neutral = false
  is_running_exposure (running e) = true

  pub live_is_running : LiveCrossPosition → Bool
  live_is_running p = is_running_exposure p.exposure

  unfoldable pub from_raw :
      CrossPosition → ℤ → Result LiveCrossPosition CrossExposureValidationError
  from_raw position realized_pl = do
    exposure ← position_exposure position
    ok (record {
      id = position_id position;
      margin = position_margin position;
      leverage = position_leverage position;
      exposure = exposure;
      realized_pl = realized_pl;
      start_funding_fees = position_funding_fees position;
      curr_funding_fees = position_funding_fees position;
      start_trading_fees = position_trading_fees position;
      curr_trading_fees = position_trading_fees position;
    })

  -- The last steps of both updates: what the new position says, and what the old one began with.
  abbrev pub updated :
      LiveCrossPosition → CrossPosition → CrossExposure CrossExposureRunning → ℤ → LiveCrossPosition
  updated p new_position exposure realized_pl = record {
    id = position_id new_position;
    margin = position_margin new_position;
    leverage = position_leverage new_position;
    exposure = exposure;
    realized_pl = realized_pl;
    start_funding_fees = p.start_funding_fees;
    curr_funding_fees = position_funding_fees new_position;
    start_trading_fees = p.start_trading_fees;
    curr_trading_fees = position_trading_fees new_position;
  }

  unfoldable pub update_from_raw :
      LiveCrossPosition → CrossPosition → Result LiveCrossPosition ExecutorActionError
  update_from_raw p new_position = do
    exposure ← map_err live_position_validation (position_exposure new_position)
    if ltb (position_trading_fees new_position) p.curr_trading_fees
        then err (trading_fees_decreased p.curr_trading_fees (position_trading_fees new_position))
        else ok (updated p new_position exposure p.realized_pl)

  -- What an order realizes: the changes of margin, of trading fees and of funding fees.
  unfoldable pub realized_by_order :
      LiveCrossPosition → CrossPosition → Result ℤ ExecutorActionError
  realized_by_order p new_position = do
    new_margin ← ok_or (i64_try_from (position_margin new_position)) live_position_overflow
    prev_margin ← ok_or (i64_try_from p.margin) live_position_overflow
    margin_delta ← ok_or (i64_checked (new_margin -ℤ prev_margin)) live_position_overflow
    fee_delta_u64 ←
        ok_or (u64_checked_sub (position_trading_fees new_position) p.curr_trading_fees)
          (trading_fees_decreased p.curr_trading_fees (position_trading_fees new_position))
    fee_delta ← ok_or (i64_try_from fee_delta_u64) live_position_overflow
    funding_delta ←
        ok_or (i64_checked (position_funding_fees new_position -ℤ p.curr_funding_fees))
          live_position_overflow
    with_fees ← ok_or (i64_checked (margin_delta +ℤ fee_delta)) live_position_overflow
    ok_or (i64_checked (with_fees +ℤ funding_delta)) live_position_overflow

  unfoldable pub update_after_order :
      LiveCrossPosition → CrossPosition → Result LiveCrossPosition ExecutorActionError
  update_after_order p new_position = do
    realized_delta ← realized_by_order p new_position
    realized_pl ← ok_or (i64_checked (p.realized_pl +ℤ realized_delta)) live_position_overflow
    exposure ← map_err live_position_validation (position_exposure new_position)
    ok (updated p new_position exposure realized_pl)

  pub liquidation_reached_by : CrossExposureRunning → TradeSide → F64 → F64 → Bool
  liquidation_reached_by e buy range_min range_max =
      f64_le range_min (price_as_f64 (exposure_liquidation e))
  liquidation_reached_by e sell range_min range_max =
      f64_le (price_as_f64 (exposure_liquidation e)) range_max

  pub liquidation_reached_in : CrossExposure CrossExposureRunning → F64 → F64 → Bool
  liquidation_reached_in neutral range_min range_max = false
  liquidation_reached_in (running e) range_min range_max =
      liquidation_reached_by e (exposure_side e) range_min range_max

  pub liquidation_was_reached : LiveCrossPosition → F64 → F64 → Bool
  liquidation_was_reached p range_min range_max =
      liquidation_reached_in p.exposure range_min range_max

  pub live_session_funding_fees : LiveCrossPosition → ℤ
  live_session_funding_fees p = i64_sub p.curr_funding_fees p.start_funding_fees

  pub live_trading_fees : LiveCrossPosition → ℕ
  live_trading_fees p = p.curr_trading_fees - p.start_trading_fees
