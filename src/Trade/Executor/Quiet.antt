-- ===== src/Trade/Executor/Quiet.antt =====
-- A candle that does not reach the price trigger closes no trade that the trigger covers.
use quantoxide.Db.{OhlcCandleRow}
use quantoxide.Prelude.{
  Option, arith, false, none, refl, some, split_bind, subst, sym, true, unwrap_or, ◌≡◌,
}
use quantoxide.Sdk.{Sdk, TradeSide, buy, sell}
use quantoxide.Sdk.Laws.{PriceLaws}
use quantoxide.Trade.Executor.Candle.{above_max, below_min, exit_at, exit_bounds, exit_price_in}
use quantoxide.Trade.Simulated.{SimulatedTradeRunning}
use quantoxide.Trade.Stoploss.{TradeTrailingStoploss}
use quantoxide.Trade.Trigger.{
  PriceTrigger, bounds_of, eval_trigger_bounds, not_set, optional_trigger, price_max, price_min,
  set, was_reached,
}
use quantoxide.Trade.Trigger.Coverage.{Covers, Within, price_max-left, price_min-left}

module _ ⦃sdk : Sdk⦄ where
  open sdk use {
    F64, f64_le, Price, price_le, price_as_f64, price_minimum, price_maximum, PercentageCapped,
  }

  module _ (laws : PriceLaws) where
    pub stays_above :
        (x : F64) (lo mn : Price)
        → price_le lo mn ≡ true
        → f64_le x (price_as_f64 mn) ≡ false
        → f64_le x (price_as_f64 lo) ≡ false
    stays_above x lo mn le h = ground (arith, laws.f64_le_price x lo mn le)

    pub stays_below :
        (x : F64) (mx hi : Price)
        → price_le mx hi ≡ true
        → f64_le (price_as_f64 mx) x ≡ false
        → f64_le (price_as_f64 hi) x ≡ false
    stays_below x mx hi le h = ground (arith, laws.price_le_f64 x mx hi le)

    -- A takeprofit that the bound takes into account is not reached either.
    pub below_takeprofit :
        (x : F64) (mx next : Price) (tp : Option Price)
        → price_le mx (price_min (unwrap_or tp price_maximum) next) ≡ true
        → f64_le (price_as_f64 mx) x ≡ false
        → above_max tp x ≡ false
    below_takeprofit x mx next none le h = refl
    below_takeprofit x mx next (some tp) le h =
        stays_below x mx tp
          (laws.price_trans mx (price_min tp next) tp le (price_min-left laws tp next)) h

    pub above_takeprofit :
        (x : F64) (mn next : Price) (tp : Option Price)
        → price_le (price_max (unwrap_or tp price_minimum) next) mn ≡ true
        → f64_le x (price_as_f64 mn) ≡ false
        → below_min tp x ≡ false
    above_takeprofit x mn next none le h = refl
    above_takeprofit x mn next (some tp) le h =
        stays_above x tp mn
          (laws.price_trans tp (price_max tp next) mn (price_max-left laws tp next) le) h

    bounds_quiet :
        (s : TradeSide) (t : SimulatedTradeRunning) (next : Option Price) (g : PriceTrigger)
        (candle : OhlcCandleRow)
        → Within g (bounds_of s t next)
        → was_reached g candle.low ≡ false
        → was_reached g candle.high ≡ false
        → exit_at (exit_bounds s t) candle ≡ none
    unfolding was_reached bounds_of exit_bounds exit_at
    bounds_quiet s t next not_set candle w l h = absurd w
    bounds_quiet buy t next (set mn mx) candle w l h =
        let lo = unwrap_or t.stoploss t.liquidation in
        rw (
          stays_above candle.low lo mn w.0 (ground arith),
          below_takeprofit candle.high mx (unwrap_or next price_maximum) t.takeprofit w.1
              (ground arith),
        )
    bounds_quiet sell t next (set mn mx) candle w l h =
        let hi = unwrap_or t.stoploss t.liquidation in
        rw (
          above_takeprofit candle.low mn (unwrap_or next price_minimum) t.takeprofit w.0
              (ground arith),
          stays_below candle.high mx hi w.1 (ground arith),
        )

    pub covered_quiet :
        (step : PercentageCapped) (g : PriceTrigger) (t : SimulatedTradeRunning)
        (tsl : Option TradeTrailingStoploss) (candle : OhlcCandleRow)
        → Covers step g (t, tsl)
        → was_reached g candle.low ≡ false
        → was_reached g candle.high ≡ false
        → exit_price_in t candle ≡ none
    unfolding eval_trigger_bounds exit_price_in
    covered_quiet step g t tsl candle c l h =
        split_bind (optional_trigger t step tsl) _ c.evaluated λ next h1 k1.
          let same : bounds_of t.side t next ≡ c.bounds = ground arith in
          bounds_quiet t.side t next g candle (subst (Within g) (sym same) c.within) l h
