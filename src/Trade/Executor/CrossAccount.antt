-- ===== src/Trade/Executor/CrossAccount.antt =====
-- The operations of the simulated executor on the cross account: deposits, withdrawals, leverage
-- and market orders. The id that `Uuid::new_v4()` draws is an argument.
use quantoxide.Prelude.{
  Bool, Option, Result, err, if◌then◌else◌, ltb, map_err, none, not, ok, ok_or, some, ℕ, ◌&&◌, ◌+◌,
  ◌-◌, ◌==◌, ◌>>=◌, ◌||◌,
}
use quantoxide.Prelude.Int.{ltb_ℤ, ◌+ℤ◌}
use quantoxide.Prelude.Machine.{i64_checked, i64_sub, i64_try_from, u64_checked}
use quantoxide.Sdk.{Sdk, TradeSide}
use quantoxide.Trade.Cross.{
  SimulatedCrossPosition, cross_close, cross_quantity, est_free_margin, is_coherent, with_leverage,
  with_margin,
}
use quantoxide.Trade.Cross.Order.{with_market_order}
use quantoxide.Trade.Error.{
  SimulatedTradeExecutorError, balance_too_low, cross_free_margin_too_low,
  cross_position_incoherent, cross_position_overflow, invalid_market_price,
}
use quantoxide.Trade.Executor.{
  Outcome, SimulatedTradeExecutorConfig, SimulatedTradeExecutorState, commit,
}
use quantoxide.Trade.Executor.Funding.{is_zero}

module _ ⦃sdk : Sdk⦄ where
  open sdk use {Price, price_round, price_bounded, OrderQuantity, cross_of_order, CrossLeverage}

  -- `if !new_cross_position.is_coherent(..) { return Err(..) }`
  unfoldable pub coherent_only :
      Price → SimulatedCrossPosition → Result SimulatedCrossPosition SimulatedTradeExecutorError
  coherent_only market_price p =
      if is_coherent p market_price then ok p else err cross_position_incoherent

  unfoldable pub cross_deposit : SimulatedTradeExecutorState → ℕ → Outcome SimulatedCrossPosition
  cross_deposit s amount = commit s (do
    amount_i64 ← ok_or (i64_try_from amount) cross_position_overflow
    _ ← if ltb_ℤ s.balance amount_i64 then err balance_too_low else ok (tt {0})
    new_cross_margin ←
        ok_or (u64_checked (s.cross_position.margin + amount)) cross_position_overflow
    moved ← with_margin s.cross_position new_cross_margin
    p ← coherent_only (price_bounded s.market_price) moved
    ok (record s { balance = i64_sub s.balance amount_i64; cross_position = p }, p))

  -- The amount is more than may be taken: all of the free margin is taken only when neutral.
  unfoldable pub exceeds_free_margin : SimulatedCrossPosition → ℕ → ℕ → Bool
  exceeds_free_margin p free_margin amount =
      ltb free_margin amount || (not (is_zero (cross_quantity p)) && amount == free_margin)

  unfoldable pub cross_withdraw : SimulatedTradeExecutorState → ℕ → Outcome SimulatedCrossPosition
  cross_withdraw s amount =
      let market_price = price_bounded s.market_price in
      commit s (do
        amount_i64 ← ok_or (i64_try_from amount) cross_position_overflow
        _ ←
            if exceeds_free_margin s.cross_position (est_free_margin s.cross_position market_price)
              amount
            then err cross_free_margin_too_low
            else ok (tt {0})
        balance ← ok_or (i64_checked (s.balance +ℤ amount_i64)) cross_position_overflow
        moved ← with_margin s.cross_position (s.cross_position.margin - amount)
        p ← coherent_only market_price moved
        ok (record s { balance = balance; cross_position = p }, p))

  pub cross_set_leverage :
      SimulatedTradeExecutorState → CrossLeverage → Outcome SimulatedCrossPosition
  cross_set_leverage s leverage = commit s (do
    moved ← with_leverage s.cross_position leverage
    p ← coherent_only (price_bounded s.market_price) moved
    ok (record s { cross_position = p }, p))

  -- `execute_cross_order`
  pub cross_order :
      SimulatedTradeExecutorConfig
      → SimulatedTradeExecutorState
      → ℕ
      → TradeSide
      → OrderQuantity
      → Outcome ℕ
  cross_order cfg s order_id side quantity = commit s (do
    market_price ← map_err invalid_market_price (price_round s.market_price)
    p ← with_market_order s.cross_position market_price side (cross_of_order quantity) cfg.fee_perc
    ok (record s { last_trade_time = some s.time; cross_position = p }, order_id))

  pub cross_order_close_position :
      SimulatedTradeExecutorConfig → SimulatedTradeExecutorState → ℕ → Outcome (Option ℕ)
  cross_order_close_position cfg s order_id =
      if is_zero (cross_quantity s.cross_position)
      then (s, ok none)
      else commit s (do
        market_price ← map_err invalid_market_price (price_round s.market_price)
        p ← cross_close s.cross_position market_price cfg.fee_perc
        ok (record s { last_trade_time = some s.time; cross_position = p }, some order_id))
