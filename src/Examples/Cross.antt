-- ===== src/Examples/Cross.antt =====
-- The cross position and its transfers at concrete inputs.
use quantoxide.Db.{FundingSettlementRow}
use quantoxide.Examples.ToyLaws.{toy_differences, toy_exposures, toy_quantities}
use quantoxide.Examples.ToySdk.{toy_sdk}
use quantoxide.Prelude.{arith, false, refl, some, true, ◌+◌, ◌≡◌}
use quantoxide.Prelude.Int.{pos, ◌+ℤ◌, ◌-ℤ◌}
use quantoxide.Sdk.{buy, neutral, running, sell}
use quantoxide.Time.{unix_epoch}
use quantoxide.Trade.Cross.{
  SimulatedCrossPosition, apply_amount_to_margin, close_exposure, close_on, coherent_exposure,
  cross_close, cross_new, cross_quantity, est_free_margin, est_running_pl, is_coherent, is_liquid,
  maintenance_margin_of, pl_floor, running_margin_of, running_pl_of, signed_quantity,
}
use quantoxide.Trade.Cross.Accounting.{IsClosedFrom, close_exposure-IsClosedFrom}
use quantoxide.Trade.Cross.Estimate.{est_entry_price_for_exposure}
use quantoxide.Trade.Cross.EstimateAgrees.{with_market_order-EntryIsEstimated}
use quantoxide.Trade.Cross.Funding.{
  cross_funding_settlement, force_close, margin_after_fee, settle_on, settle_running, settle_with,
}
use quantoxide.Trade.Cross.FundingEffect.{IsSettled, Settlement, cross_funding_settlement-IsSettled}
use quantoxide.Trade.Cross.Order.{
  carried_entry_price, carried_inverse, increase, order_costs, order_on, order_on_flat,
  order_on_running, reduce, reduce_in_loss, reduce_in_profit, reverse_exposure, with_market_order,
  with_running_exposure,
}
use quantoxide.Trade.Cross.OrderEffect.{with_market_order-adds}
use quantoxide.Trade.Simulated.{funding_fee_of, raw_funding_fee}
use quantoxide.Trade.Trigger.{price_lt}

abbrev flat : SimulatedCrossPosition ⦃sdk = toy_sdk⦄
flat = record {
  margin = 100;
  leverage = 1;
  exposure = neutral;
  trading_fees = 0;
  session_funding_fees = pos 0;
  realized_pl = pos 0;
}

-- One unit, bought at 50.
abbrev long_one : SimulatedCrossPosition ⦃sdk = toy_sdk⦄
long_one = record flat { margin = 99; exposure = running (buy, true, 50); trading_fees = 1 }

-- Selling two units turns the long of one into a short of one.
abbrev short_one : SimulatedCrossPosition ⦃sdk = toy_sdk⦄
short_one = record flat {
  margin = 108;
  exposure = running (sell, true, 60);
  trading_fees = 2;
  realized_pl = pos 10;
}

with_market_order-adds_example :
    (cross_quantity ⦃sdk = toy_sdk⦄ short_one
      ≡ cross_quantity ⦃sdk = toy_sdk⦄ long_one +ℤ signed_quantity ⦃sdk = toy_sdk⦄ sell false)
    × (short_one.trading_fees ≡ long_one.trading_fees + 1)
    × (short_one.leverage ≡ long_one.leverage)
    × (short_one.session_funding_fees ≡ long_one.session_funding_fees)
unfolding apply_amount_to_margin carried_entry_price carried_inverse close_exposure close_on
    cross_close cross_new increase order_costs order_on order_on_flat order_on_running pl_floor
    reduce reduce_in_loss reduce_in_profit reverse_exposure with_market_order with_running_exposure
    ◌+ℤ◌ ◌-ℤ◌
with_market_order-adds_example =
    with_market_order-adds ⦃sdk = toy_sdk⦄ toy_exposures toy_quantities long_one 60 sell false 0
      short_one refl

close_exposure-IsClosedFrom_example :
    IsClosedFrom ⦃sdk = toy_sdk⦄ long_one
      (pos 10)
      1
      (record flat { margin = 108; trading_fees = 2; realized_pl = pos 10 })
unfolding apply_amount_to_margin close_exposure cross_new pl_floor ◌+ℤ◌ ◌-ℤ◌
close_exposure-IsClosedFrom_example =
    close_exposure-IsClosedFrom ⦃sdk = toy_sdk⦄ toy_exposures long_one (buy, true, 50) 60 0 refl

-- A rate that takes more than the margin of the long.
abbrev row_of : FundingSettlementRow ⦃sdk = toy_sdk⦄
row_of = record {
  id = 1;
  time = unix_epoch;
  fixing_price = pos 50;
  funding_rate = pos 3;
  created_at = unix_epoch;
}

abbrev settled : Settlement ⦃sdk = toy_sdk⦄
settled = (
  record flat {
    margin = 0;
    trading_fees = 2;
    session_funding_fees = pos 300000000;
    realized_pl = pos 10;
  },
  pos 300000000,
  true,
)

cross_funding_settlement-IsSettled_example : IsSettled ⦃sdk = toy_sdk⦄ long_one 60 settled
unfolding apply_amount_to_margin close_exposure close_on coherent_exposure cross_close
    cross_funding_settlement cross_new est_free_margin est_running_pl force_close funding_fee_of
    is_coherent is_liquid maintenance_margin_of margin_after_fee pl_floor price_lt raw_funding_fee
    running_margin_of running_pl_of settle_on settle_running settle_with ◌+ℤ◌ ◌-ℤ◌
cross_funding_settlement-IsSettled_example =
    cross_funding_settlement-IsSettled ⦃sdk = toy_sdk⦄ toy_exposures long_one (pos 60) row_of 0
      settled refl

-- One unit more, bought at 60.
abbrev long_two : SimulatedCrossPosition ⦃sdk = toy_sdk⦄
long_two = record flat { margin = 98; exposure = running (buy, false, 50); trading_fees = 2 }

with_market_order-EntryIsEstimated_example :
    est_entry_price_for_exposure ⦃sdk = toy_sdk⦄ long_one.exposure buy false 60 ≡ some 50
unfolding apply_amount_to_margin carried_entry_price carried_inverse close_exposure close_on
    cross_close cross_new increase order_costs order_on order_on_flat order_on_running pl_floor
    reduce reduce_in_loss reduce_in_profit reverse_exposure with_market_order with_running_exposure
    ◌+ℤ◌ ◌-ℤ◌
with_market_order-EntryIsEstimated_example =
    with_market_order-EntryIsEstimated ⦃sdk = toy_sdk⦄ toy_exposures toy_quantities toy_differences
      long_one 60 buy true 1 long_two (omega arith) refl
