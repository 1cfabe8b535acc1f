-- ===== src/Trade/Trigger.antt =====
-- `TradeRunningExt` and `PriceTrigger` of src/trade/core.rs, on the simulated running trade.
pub mod Coverage
pub mod Quiet
use quantoxide.Prelude.{
  Bool, Option, Result, err, false, if◌then◌else◌, map_err, none, not, ok, ok_or, some, unwrap_or,
  ◌&&◌, ◌>>=◌, ◌||◌,
}
use quantoxide.Sdk.{Sdk, TradeSide, buy, sell}
use quantoxide.Trade.Error.{
  TradeCoreError, invalid_price_apply_discount, invalid_price_apply_gain, invalid_price_rounding,
  invalid_stoploss_smaller_than_trailing_step_size, no_next_trigger_trade_stoploss_not_set,
}
use quantoxide.Trade.Simulated.{SimulatedTradeRunning}
use quantoxide.Trade.Stoploss.{TradeTrailingStoploss}

module _ ⦃sdk : Sdk⦄ where
  open sdk use {
    F64, f64_le, f64_one, f64_hundred, f64_add, f64_sub, f64_div, Price, price_le, price_as_f64,
    price_minimum, price_maximum, price_round, price_round_up, price_round_down, PercentageCapped,
    percentage, capped_le, capped_as_f64, apply_gain, apply_discount,
  }

  -- `Ord::max`, `Ord::min` and `<` of `Price`.
  unfoldable pub price_max : Price → Price → Price
  price_max a b = if price_le a b then b else a

  unfoldable pub price_min : Price → Price → Price
  price_min a b = if price_le a b then a else b

  unfoldable pub price_lt : Price → Price → Bool
  price_lt a b = not (price_le b a)

  unfoldable pub stoploss_trigger_price :
      TradeSide → Price → PercentageCapped → PercentageCapped → Result Price TradeCoreError
  stoploss_trigger_price buy curr_stoploss tsl_step_size trade_tsl = do
    next_stoploss ←
        map_err (invalid_price_apply_gain curr_stoploss (percentage tsl_step_size))
          (apply_gain curr_stoploss (percentage tsl_step_size))
    let tsl_factor = f64_sub f64_one (f64_div (capped_as_f64 trade_tsl) f64_hundred)
    let trigger_price = f64_div (price_as_f64 next_stoploss) tsl_factor
    map_err (invalid_price_rounding trigger_price) (price_round_up trigger_price)
  stoploss_trigger_price sell curr_stoploss tsl_step_size trade_tsl = do
    next_stoploss ←
        map_err (invalid_price_apply_discount curr_stoploss tsl_step_size)
          (apply_discount curr_stoploss tsl_step_size)
    let tsl_factor = f64_add f64_one (f64_div (capped_as_f64 trade_tsl) f64_hundred)
    let trigger_price = f64_div (price_as_f64 next_stoploss) tsl_factor
    map_err (invalid_price_rounding trigger_price) (price_round_down trigger_price)

  unfoldable pub next_stoploss_update_trigger :
      SimulatedTradeRunning → PercentageCapped → TradeTrailingStoploss → Result Price TradeCoreError
  next_stoploss_update_trigger t tsl_step_size trade_tsl =
      if not (capped_le tsl_step_size trade_tsl)
      then err (invalid_stoploss_smaller_than_trailing_step_size trade_tsl tsl_step_size)
      else do
        curr_stoploss ← ok_or t.stoploss (no_next_trigger_trade_stoploss_not_set t.id)
        stoploss_trigger_price t.side curr_stoploss tsl_step_size trade_tsl

  -- `map(..).transpose()?`
  unfoldable pub optional_trigger :
      SimulatedTradeRunning
      → PercentageCapped
      → Option TradeTrailingStoploss
      → Result (Option Price) TradeCoreError
  optional_trigger t tsl_step_size none = ok none
  optional_trigger t tsl_step_size (some tsl) = do
    next ← next_stoploss_update_trigger t tsl_step_size tsl
    ok (some next)

  unfoldable pub bounds_of : TradeSide → SimulatedTradeRunning → Option Price → Price × Price
  bounds_of buy t next = (
    unwrap_or t.stoploss t.liquidation,
    price_min (unwrap_or t.takeprofit price_maximum) (unwrap_or next price_maximum),
  )
  bounds_of sell t next = (
    price_max (unwrap_or t.takeprofit price_minimum) (unwrap_or next price_minimum),
    unwrap_or t.stoploss t.liquidation,
  )

  unfoldable pub eval_trigger_bounds :
      SimulatedTradeRunning
      → PercentageCapped
      → Option TradeTrailingStoploss
      → Result (Price × Price) TradeCoreError
  eval_trigger_bounds t tsl_step_size trade_tsl = do
    next ← optional_trigger t tsl_step_size trade_tsl
    ok (bounds_of t.side t next)

  pub data PriceTrigger : Type 0 where
    not_set : PriceTrigger
    set : Price → Price → PriceTrigger

  -- The new bounds meet those that are set.
  unfoldable pub narrow : PriceTrigger → Price × Price → PriceTrigger
  narrow not_set (new_min, new_max) = set new_min new_max
  narrow (set min_price max_price) (new_min, new_max) =
      set (price_max new_min min_price) (price_min new_max max_price)

  -- `PriceTrigger::update`
  unfoldable pub trigger_update :
      PriceTrigger
      → PercentageCapped
      → SimulatedTradeRunning
      → Option TradeTrailingStoploss
      → Result PriceTrigger TradeCoreError
  trigger_update g tsl_step_size t trade_tsl = do
    bounds ← eval_trigger_bounds t tsl_step_size trade_tsl
    ok (narrow g bounds)

  -- `PriceTrigger::was_reached`
  unfoldable pub was_reached : PriceTrigger → F64 → Bool
  was_reached not_set market_price = false
  was_reached (set min_price max_price) market_price =
      f64_le market_price (price_as_f64 min_price) || f64_le (price_as_f64 max_price) market_price

  -- `TradeRunningExt::was_closed_on_range`
  pub reached_by : Option Price → (Price → Bool) → Bool
  reached_by none test = false
  reached_by (some p) test = test p

  pub closed_on_range : TradeSide → SimulatedTradeRunning → F64 → F64 → Bool
  closed_on_range buy t range_min range_max =
      reached_by t.stoploss (λ p. f64_le range_min (price_as_f64 p))
      || f64_le range_min (price_as_f64 t.liquidation)
      || reached_by t.takeprofit (λ p. f64_le (price_as_f64 p) range_max)
  closed_on_range sell t range_min range_max =
      reached_by t.stoploss (λ p. f64_le (price_as_f64 p) range_max)
      || f64_le (price_as_f64 t.liquidation) range_max
      || reached_by t.takeprofit (λ p. f64_le range_min (price_as_f64 p))

  pub was_closed_on_range : SimulatedTradeRunning → F64 → F64 → Bool
  was_closed_on_range t range_min range_max = closed_on_range t.side t range_min range_max

  -- `TradeRunningExt::eval_new_stoploss_on_range`: what the range moves a trailing stoploss to.
  pub range_stoploss :
      TradeSide → F64 → F64 → F64 → PercentageCapped → Result (Option Price) TradeCoreError
  range_stoploss buy range_min range_max next_trigger trade_tsl =
      if f64_le next_trigger range_max
      then (do
        rounded ← map_err (invalid_price_rounding range_max) (price_round range_max)
        discounted ←
            map_err (invalid_price_apply_discount rounded trade_tsl)
              (apply_discount rounded trade_tsl)
        ok (some discounted))
      else ok none
  range_stoploss sell range_min range_max next_trigger trade_tsl =
      if f64_le range_min next_trigger
      then (do
        rounded ← map_err (invalid_price_rounding range_min) (price_round range_min)
        gained ←
            map_err (invalid_price_apply_gain rounded (percentage trade_tsl))
              (apply_gain rounded (percentage trade_tsl))
        ok (some gained))
      else ok none

  -- `==` of `Price`, which its order agrees with.
  pub price_eq : Price → Price → Bool
  price_eq a b = price_le a b && price_le b a

  -- `filter(|new_sl| Some(*new_sl) != self.stoploss())`
  pub unless_same : Option Price → Option Price → Option Price
  unless_same (some new_stoploss) (some stoploss) =
      if price_eq new_stoploss stoploss then none else some new_stoploss
  unless_same (some new_stoploss) none = some new_stoploss
  unless_same none stoploss = none

  pub eval_new_stoploss_on_range :
      SimulatedTradeRunning
      → PercentageCapped
      → TradeTrailingStoploss
      → F64
      → F64
      → Result (Option Price) TradeCoreError
  eval_new_stoploss_on_range t tsl_step_size trade_tsl range_min range_max = do
    next_trigger ← next_stoploss_update_trigger t tsl_step_size trade_tsl
    new_stoploss ← range_stoploss t.side range_min range_max (price_as_f64 next_trigger) trade_tsl
    ok (unless_same new_stoploss t.stoploss)
