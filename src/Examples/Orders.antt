-- ===== src/Examples/Orders.antt =====
-- Order requests and the state that an executor reports, at concrete inputs.
use quantoxide.Examples.Executor.{after_open}
use quantoxide.Examples.ToySdk.{toy_sdk}
use quantoxide.Prelude.{err, none, ok, refl, some, true, ◌≡◌, ◌⊎◌}
use quantoxide.Prelude.Int.{◌+ℤ◌, ◌-ℤ◌}
use quantoxide.Sdk.{buy}
use quantoxide.Trade.OrderRequest.{
  IsolatedOrderRequest, invalid_risk_bounds, isolated_market, isolated_request,
  isolated_with_client_id, risk_is_ordered, validate_fixed_risk_ordering, with_stoploss,
  with_takeprofit,
}
use quantoxide.Trade.OrderRequest.Validation.{
  IsRefused, LosesBelowProfit, isolated_request-validates,
}
use quantoxide.Trade.RunningMap.{trades_desc}
use quantoxide.Trade.Stoploss.{fixed}
use quantoxide.Trade.TradingState.{TradingState, get_running_stats, no_stats, trading_state}
use quantoxide.Trade.TradingState.Sums.{AddsUp, get_running_stats-AddsUp}
use quantoxide.Trade.Trigger.{price_lt}

abbrev toy_request : IsolatedOrderRequest ⦃sdk = toy_sdk⦄
toy_request = record {
  side = buy;
  size = true;
  leverage = 2;
  stoploss = some (fixed 80);
  takeprofit = some 120;
  client_id = some 7;
}

isolated_request-validates_example :
    IsRefused ⦃sdk = toy_sdk⦄ buy (some (fixed 80)) (some 120) (ok toy_request)
    ⊎ (LosesBelowProfit ⦃sdk = toy_sdk⦄ buy (some (fixed 80)) (some 120)
        × (isolated_request ⦃sdk = toy_sdk⦄ buy true 2 (some (fixed 80)) (some 120) (some 7)
            ≡ ok toy_request))
unfolding isolated_market isolated_request isolated_with_client_id price_lt risk_is_ordered
    validate_fixed_risk_ordering with_stoploss with_takeprofit ◌+ℤ◌ ◌-ℤ◌
isolated_request-validates_example =
    isolated_request-validates ⦃sdk = toy_sdk⦄ buy true 2 (some (fixed 80)) (some 120) (some 7)

-- A stoploss above the takeprofit of a long is refused.
refused :
    isolated_request ⦃sdk = toy_sdk⦄ buy true 2 (some (fixed 130)) (some 120) none
    ≡ err (invalid_risk_bounds buy 130 120)
unfolding isolated_market isolated_request isolated_with_client_id price_lt risk_is_ordered
    validate_fixed_risk_ordering with_stoploss with_takeprofit ◌+ℤ◌ ◌-ℤ◌
refused = refl

abbrev snapshot : TradingState ⦃sdk = toy_sdk⦄
snapshot = trading_state ⦃sdk = toy_sdk⦄ after_open

get_running_stats-AddsUp_example :
    AddsUp ⦃sdk = toy_sdk⦄
      (no_stats ⦃sdk = toy_sdk⦄)
      (trades_desc ⦃sdk = toy_sdk⦄ snapshot.running_map)
      (get_running_stats ⦃sdk = toy_sdk⦄ snapshot)
get_running_stats-AddsUp_example = get_running_stats-AddsUp ⦃sdk = toy_sdk⦄ snapshot
