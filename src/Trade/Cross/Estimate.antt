-- ===== src/Trade/Cross/Estimate.antt =====
-- The estimates of `CrossPositionCore` (src/trade/core.rs) for another exposure. They read the
-- position's margin, leverage and exposure only.
use quantoxide.Prelude.{
  Option, Result, err, if◌then◌else◌, leb, ltb, none, not, ok, some, suc, zero, ℕ, ◌+◌, ◌==◌,
}
use quantoxide.Prelude.Int.{leb_ℤ, neg_part, pos, pos_part, ℤ, ◌+ℤ◌, ◌-ℤ◌}
use quantoxide.Prelude.Machine.{i64_checked, i64_checked_neg, i64_try_from}
use quantoxide.Sdk.{CrossExposure, Sdk, TradeSide, buy, neutral, running, sell}
use quantoxide.Trade.Cross.{exposure_signed, pl_floor, side_eq}
use quantoxide.Trade.Cross.Order.{carried_entry_price}

module _ ⦃sdk : Sdk⦄ where
  open sdk use {
    Price, PercentageCapped, Margin, margin_as_i64, CrossQuantity, cross_as_u64, cross_as_i64,
    cross_try_from, cross_try_sub, CrossLeverage, CrossExposureRunning, exposure_side,
    exposure_quantity, exposure_entry_price, evaluate_cross_order_fee, aggregate_cross_entry_price,
  }

  -- What only these estimates use of the crate.
  pub record CollateralSdk : Type 1 where
    pub margin_max : ℕ  -- `Margin::MAX.as_u64()`
    pub cross_exposure_running :
        ℕ
        → CrossLeverage
        → TradeSide
        → CrossQuantity
        → Price
        → Option (CrossExposure CrossExposureRunning)  -- `CrossExposure::running(..).ok()`
    pub used_margin : CrossExposureRunning → Margin  -- `running_margin`
    pub reserved_margin : CrossExposureRunning → Margin  -- `maintenance_margin`
    pub margin_try_add : Margin → Margin → Option Margin
    pub margin_try_add_u64 : Margin → ℕ → Option Margin
    pub est_from_liquidation_price : TradeSide → CrossQuantity → Price → Price → Option Margin

  abbrev pub ok_of {ℓ κ} : {A : Type ℓ} {E : Type κ} → Result A E → Option A
  ok_of (ok a) = some a
  ok_of (err e) = none

  infixl 5 ◌|>◌
  abbrev pub ◌|>◌ {ℓ κ} : {A : Type ℓ} {B : Type κ} → Option A → (A → Option B) → Option B
  none |> f = none
  some a |> f = f a

  unfoldable pub est_reduced_entry :
      CrossExposureRunning → CrossQuantity → CrossQuantity → Price → Price
  est_reduced_entry e new_quantity reduced_quantity market_price =
      if leb_ℤ (pos 0)
        (pl_floor (exposure_side e) reduced_quantity (exposure_entry_price e) market_price)
      then exposure_entry_price e
      else carried_entry_price e new_quantity market_price

  unfoldable pub est_same_side_entry : CrossExposureRunning → CrossQuantity → Price → Option Price
  est_same_side_entry e new_quantity market_price =
      if ltb (cross_as_u64 (exposure_quantity e)) (cross_as_u64 new_quantity)
      then (ok_of (cross_try_sub new_quantity (exposure_quantity e)) |> λ added_quantity. some (
          aggregate_cross_entry_price (exposure_quantity e) (exposure_entry_price e) added_quantity
            market_price))
      else if cross_as_u64 new_quantity == cross_as_u64 (exposure_quantity e)
      then some (exposure_entry_price e)
      else (ok_of (cross_try_sub (exposure_quantity e) new_quantity) |> λ reduced_quantity.
          some (est_reduced_entry e new_quantity reduced_quantity market_price))

  unfoldable pub est_entry_price_for_exposure :
      CrossExposure CrossExposureRunning → TradeSide → CrossQuantity → Price → Option Price
  est_entry_price_for_exposure neutral new_side new_quantity market_price = some market_price
  est_entry_price_for_exposure (running e) new_side new_quantity market_price =
      if not (side_eq (exposure_side e) new_side)
      then some market_price
      else est_same_side_entry e new_quantity market_price

  pub est_reduced_margin : ℤ → CrossExposureRunning → CrossQuantity → Price → Option ℤ
  est_reduced_margin current_margin e reduced_quantity market_price =
      let realized_pl =
        pl_floor (exposure_side e) reduced_quantity (exposure_entry_price e) market_price in
      if leb_ℤ (pos 0) realized_pl
      then i64_checked (current_margin +ℤ realized_pl)
      else some current_margin

  pub est_margin_from :
      ℤ → CrossExposure CrossExposureRunning → TradeSide → CrossQuantity → Price → Option ℤ
  est_margin_from current_margin neutral new_side new_quantity market_price = some current_margin
  est_margin_from current_margin (running e) new_side new_quantity market_price =
      if not (side_eq (exposure_side e) new_side)
      then i64_checked (
          current_margin
          +ℤ pl_floor (exposure_side e) (exposure_quantity e) (exposure_entry_price e) market_price)
      else if leb (cross_as_u64 (exposure_quantity e)) (cross_as_u64 new_quantity)
      then some current_margin
      else (ok_of (cross_try_sub (exposure_quantity e) new_quantity) |> λ reduced_quantity.
          est_reduced_margin current_margin e reduced_quantity market_price)

  pub est_margin_for_exposure :
      ℕ → CrossExposure CrossExposureRunning → TradeSide → CrossQuantity → Price → Option ℤ
  est_margin_for_exposure margin exposure new_side new_quantity market_price =
      i64_try_from margin |> λ current_margin.
      est_margin_from current_margin exposure new_side new_quantity market_price

  pub target_quantity : TradeSide → CrossQuantity → Option ℤ
  target_quantity buy new_quantity = some (cross_as_i64 new_quantity)
  target_quantity sell new_quantity = i64_checked_neg (cross_as_i64 new_quantity)

  abbrev pub unsigned_abs : ℤ → ℕ
  unsigned_abs z = pos_part z + neg_part z

  pub est_fee_of : ℕ → Price → PercentageCapped → Option ℕ
  est_fee_of zero market_price fee_perc = some 0
  est_fee_of (suc n) market_price fee_perc = ok_of (cross_try_from (suc n)) |> λ order_quantity.
      some (evaluate_cross_order_fee fee_perc order_quantity market_price)

  pub est_order_fee_for_exposure :
      CrossExposure CrossExposureRunning
      → TradeSide
      → CrossQuantity
      → Price
      → PercentageCapped
      → Option ℕ
  est_order_fee_for_exposure exposure new_side new_quantity market_price fee_perc =
      target_quantity new_side new_quantity |> λ target.
      i64_checked (target -ℤ exposure_signed exposure) |> λ change.
      est_fee_of (unsigned_abs change) market_price fee_perc

  module _ (more : CollateralSdk) where
    open more use {
      margin_max, cross_exposure_running, used_margin, reserved_margin, margin_try_add,
      margin_try_add_u64, est_from_liquidation_price,
    }

    abbrev pub max_ℤ : ℤ → ℤ → ℤ
    max_ℤ a b = if leb_ℤ a b then b else a

    -- The larger of the changes that the liquidation price and that the coherence floor ask for.
    pub est_collateral_diff_of :
        CrossExposureRunning → TradeSide → CrossQuantity → Price → Price → ℤ → ℤ → Option ℤ
    est_collateral_diff_of target new_side new_quantity market_price new_liquidation
          projected_margin projected_net_value =
        margin_try_add (used_margin target) (reserved_margin target) |> λ held.
        margin_try_add_u64 held 1 |> λ minimum_coherent_margin.
        i64_checked (margin_as_i64 minimum_coherent_margin -ℤ projected_margin)
        |> λ coherence_delta.
            est_from_liquidation_price new_side new_quantity market_price new_liquidation |> λ net.
            margin_try_add net (reserved_margin target) |> λ target_net_collateral.
            i64_checked (margin_as_i64 target_net_collateral -ℤ projected_net_value)
            |> λ liquidation_delta. some (max_ℤ liquidation_delta coherence_delta)

    -- `unreachable!` where the crate gives a neutral exposure.
    pub est_collateral_diff_at :
        CrossExposure CrossExposureRunning
        → ℕ
        → CrossExposure CrossExposureRunning
        → TradeSide
        → CrossQuantity
        → Price
        → Price
        → PercentageCapped
        → Price
        → Option ℤ
    est_collateral_diff_at neutral margin exposure new_side new_quantity market_price
          new_liquidation fee_perc new_entry_price =
        none
    est_collateral_diff_at (running target) margin exposure new_side new_quantity market_price
          new_liquidation fee_perc new_entry_price =
        est_order_fee_for_exposure exposure new_side new_quantity market_price fee_perc |> λ fee.
        est_margin_for_exposure margin exposure new_side new_quantity market_price |> λ est_margin.
        i64_try_from fee |> λ fee_i64. i64_checked (est_margin -ℤ fee_i64) |> λ projected_margin.
        i64_checked
          (projected_margin +ℤ pl_floor new_side new_quantity new_entry_price market_price)
        |> λ projected_net_value.
            est_collateral_diff_of target new_side new_quantity market_price new_liquidation
              projected_margin projected_net_value

    pub est_collateral_diff_for_exposure :
        ℕ
        → CrossLeverage
        → CrossExposure CrossExposureRunning
        → TradeSide
        → CrossQuantity
        → Price
        → Price
        → PercentageCapped
        → Option ℤ
    est_collateral_diff_for_exposure margin leverage exposure new_side new_quantity market_price
          new_liquidation fee_perc =
        est_entry_price_for_exposure exposure new_side new_quantity market_price
        |> λ new_entry_price.
            cross_exposure_running margin_max leverage new_side new_quantity new_entry_price
            |> λ target.
                est_collateral_diff_at target margin exposure new_side new_quantity market_price
                  new_liquidation fee_perc new_entry_price

    pub est_collateral_diff_for_liquidation :
        ℕ
        → CrossLeverage
        → CrossExposure CrossExposureRunning
        → Price
        → Price
        → PercentageCapped
        → Option ℤ
    est_collateral_diff_for_liquidation margin leverage neutral market_price new_liquidation
          fee_perc =
        none
    est_collateral_diff_for_liquidation margin leverage (running e) market_price new_liquidation
          fee_perc =
        est_collateral_diff_for_exposure margin leverage (running e) (exposure_side e)
          (exposure_quantity e) market_price new_liquidation fee_perc
