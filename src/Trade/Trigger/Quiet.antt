-- ===== src/Trade/Trigger/Quiet.antt =====
-- Prices that do not reach the price trigger, against the stoploss, liquidation and takeprofit of the
-- trades it covers.
use quantoxide.Prelude.{
  Bool-cases, Option, arith, false, inl, inr, none, ok_inj, refl, some, split_bind, subst, sym,
  true, unwrap_or, ◌≡◌, ◌⊎◌,
}
use quantoxide.Sdk.{Sdk, TradeSide, buy, sell}
use quantoxide.Sdk.Laws.{PriceLaws}
use quantoxide.Trade.Executor.Quiet.{stays_above, stays_below}
use quantoxide.Trade.Simulated.{SimulatedTradeRunning}
use quantoxide.Trade.Stoploss.{TradeTrailingStoploss}
use quantoxide.Trade.Trigger.{
  PriceTrigger, bounds_of, closed_on_range, eval_trigger_bounds, not_set, optional_trigger,
  price_max, price_min, reached_by, set, was_closed_on_range, was_reached,
}
use quantoxide.Trade.Trigger.Coverage.{Covers, Within, price_max-left, price_min-left}

module _ ⦃sdk : Sdk⦄ where
  open sdk use {
    F64, f64_le, Price, price_le, price_as_f64, price_minimum, price_maximum, PercentageCapped,
  }

  -- A stoploss of a trade, if it has one, is on the near side of its liquidation price.
  abbrev pub NearerThan : TradeSide → Option Price → Price → Type 0
  NearerThan side none liquidation = Unit
  NearerThan buy (some p) liquidation = price_le liquidation p ≡ true
  NearerThan sell (some p) liquidation = price_le p liquidation ≡ true

  -- The trade has a stoploss, and it lies beyond the liquidation price.
  abbrev pub IsBeyond : TradeSide → Option Price → Price → Type 0
  IsBeyond side none liquidation = ⊥
  IsBeyond buy (some p) liquidation = price_le liquidation p ≡ false
  IsBeyond sell (some p) liquidation = price_le p liquidation ≡ false

  nearer_or_IsBeyond :
      (side : TradeSide) (sl : Option Price) (liquidation : Price)
      → NearerThan side sl liquidation ⊎ IsBeyond side sl liquidation
  nearer_or_IsBeyond buy none liquidation = inl tt
  nearer_or_IsBeyond sell none liquidation = inl tt
  nearer_or_IsBeyond buy (some p) liquidation = Bool-cases (price_le liquidation p)
  nearer_or_IsBeyond sell (some p) liquidation = Bool-cases (price_le p liquidation)

  -- No price of the range is at the stoploss or the takeprofit.
  abbrev pub AreUnreached : TradeSide → SimulatedTradeRunning → F64 → F64 → Type 0
  AreUnreached buy t lo hi =
      (reached_by t.stoploss (λ p. f64_le lo (price_as_f64 p)) ≡ false)
      × (reached_by t.takeprofit (λ p. f64_le (price_as_f64 p) hi) ≡ false)
  AreUnreached sell t lo hi =
      (reached_by t.stoploss (λ p. f64_le (price_as_f64 p) hi) ≡ false)
      × (reached_by t.takeprofit (λ p. f64_le lo (price_as_f64 p)) ≡ false)

  -- A range reaches neither stoploss nor takeprofit of a trade, and closes it by no liquidation price
  -- but one that the stoploss lies beyond.
  abbrev pub StaysOpen : SimulatedTradeRunning → F64 → F64 → Type 0
  StaysOpen t lo hi =
      AreUnreached t.side t lo hi
      × ((was_closed_on_range t lo hi ≡ false) ⊎ IsBeyond t.side t.stoploss t.liquidation)

  module _ (laws : PriceLaws) where
    above_loss :
        (sl : Option Price) (liquidation mn : Price) (lo : F64)
        → NearerThan buy sl liquidation
        → price_le (unwrap_or sl liquidation) mn ≡ true
        → f64_le lo (price_as_f64 mn) ≡ false
        → (reached_by sl (λ p. f64_le lo (price_as_f64 p)) ≡ false)
          × (f64_le lo (price_as_f64 liquidation) ≡ false)
    unfolding reached_by
    above_loss none liquidation mn lo n w l = (refl, stays_above laws lo liquidation mn w l)
    above_loss (some p) liquidation mn lo n w l = (
      stays_above laws lo p mn w l,
      stays_above laws lo liquidation mn (laws.price_trans liquidation p mn n w) l,
    )

    below_loss :
        (sl : Option Price) (liquidation mx : Price) (hi : F64)
        → NearerThan sell sl liquidation
        → price_le mx (unwrap_or sl liquidation) ≡ true
        → f64_le (price_as_f64 mx) hi ≡ false
        → (reached_by sl (λ p. f64_le (price_as_f64 p) hi) ≡ false)
          × (f64_le (price_as_f64 liquidation) hi ≡ false)
    unfolding reached_by
    below_loss none liquidation mx hi n w h = (refl, stays_below laws hi mx liquidation w h)
    below_loss (some p) liquidation mx hi n w h = (
      stays_below laws hi mx p w h,
      stays_below laws hi mx liquidation (laws.price_trans mx p liquidation w n) h,
    )

    below_profit :
        (tp : Option Price) (mx next : Price) (hi : F64)
        → price_le mx (price_min (unwrap_or tp price_maximum) next) ≡ true
        → f64_le (price_as_f64 mx) hi ≡ false
        → reached_by tp (λ p. f64_le (price_as_f64 p) hi) ≡ false
    unfolding reached_by
    below_profit none mx next hi w h = refl
    below_profit (some tp) mx next hi w h =
        stays_below laws hi mx tp
          (laws.price_trans mx (price_min tp next) tp w (price_min-left laws tp next)) h

    above_profit :
        (tp : Option Price) (mn next : Price) (lo : F64)
        → price_le (price_max (unwrap_or tp price_minimum) next) mn ≡ true
        → f64_le lo (price_as_f64 mn) ≡ false
        → reached_by tp (λ p. f64_le lo (price_as_f64 p)) ≡ false
    unfolding reached_by
    above_profit none mn next lo w l = refl
    above_profit (some tp) mn next lo w l =
        stays_above laws lo tp mn
          (laws.price_trans tp (price_max tp next) mn (price_max-left laws tp next) w) l

    above_stoploss :
        (sl : Option Price) (liquidation mn : Price) (lo : F64)
        → price_le (unwrap_or sl liquidation) mn ≡ true
        → f64_le lo (price_as_f64 mn) ≡ false
        → reached_by sl (λ p. f64_le lo (price_as_f64 p)) ≡ false
    unfolding reached_by
    above_stoploss none liquidation mn lo w l = refl
    above_stoploss (some p) liquidation mn lo w l = stays_above laws lo p mn w l

    below_stoploss :
        (sl : Option Price) (liquidation mx : Price) (hi : F64)
        → price_le mx (unwrap_or sl liquidation) ≡ true
        → f64_le (price_as_f64 mx) hi ≡ false
        → reached_by sl (λ p. f64_le (price_as_f64 p) hi) ≡ false
    unfolding reached_by
    below_stoploss none liquidation mx hi w h = refl
    below_stoploss (some p) liquidation mx hi w h = stays_below laws hi mx p w h

    side_unreached :
        (side : TradeSide) (t : SimulatedTradeRunning) (next : Option Price) (mn mx : Price)
        (lo hi : F64)
        → Within (set mn mx) (bounds_of side t next)
        → f64_le lo (price_as_f64 mn) ≡ false
        → f64_le (price_as_f64 mx) hi ≡ false
        → AreUnreached side t lo hi
    unfolding bounds_of
    side_unreached buy t next mn mx lo hi w l h = (
      above_stoploss t.stoploss t.liquidation mn lo w.0 l,
      below_profit t.takeprofit mx (unwrap_or next price_maximum) hi w.1 h,
    )
    side_unreached sell t next mn mx lo hi w l h = (
      below_stoploss t.stoploss t.liquidation mx hi w.1 h,
      above_profit t.takeprofit mn (unwrap_or next price_minimum) lo w.0 l,
    )

    side_quiet :
        (side : TradeSide) (t : SimulatedTradeRunning) (next : Option Price) (mn mx : Price)
        (lo hi : F64)
        → NearerThan side t.stoploss t.liquidation
        → Within (set mn mx) (bounds_of side t next)
        → f64_le lo (price_as_f64 mn) ≡ false
        → f64_le (price_as_f64 mx) hi ≡ false
        → closed_on_range side t lo hi ≡ false
    unfolding closed_on_range bounds_of
    side_quiet buy t next mn mx lo hi n w l h =
        let loss = above_loss t.stoploss t.liquidation mn lo n w.0 l in
        rw (loss.0, loss.1, below_profit t.takeprofit mx (unwrap_or next price_maximum) hi w.1 h)
          refl
    side_quiet sell t next mn mx lo hi n w l h =
        let loss = below_loss t.stoploss t.liquidation mx hi n w.1 h in
        rw (loss.0, loss.1, above_profit t.takeprofit mn (unwrap_or next price_minimum) lo w.0 l)
          refl

    trigger_quiet :
        (t : SimulatedTradeRunning) (next : Option Price) (g : PriceTrigger) (lo hi : F64)
        → Within g (bounds_of t.side t next)
        → was_reached g lo ≡ false
        → was_reached g hi ≡ false
        → StaysOpen t lo hi
    unfolding was_reached was_closed_on_range
    trigger_quiet t next not_set lo hi w l h = absurd w
    trigger_quiet t next (set mn mx) lo hi w l h = (
      side_unreached t.side t next mn mx lo hi w (ground arith) (ground arith),
      elim (nearer_or_IsBeyond t.side t.stoploss t.liquidation) [
        | inl n ↦ inl (side_quiet t.side t next mn mx lo hi n w (ground arith) (ground arith))
        | inr b ↦ inr b
      ],
    )

    pub covered-StaysOpen :
        (step : PercentageCapped) (g : PriceTrigger) (t : SimulatedTradeRunning)
        (tsl : Option TradeTrailingStoploss) (lo hi : F64)
        → Covers step g (t, tsl)
        → was_reached g lo ≡ false
        → was_reached g hi ≡ false
        → StaysOpen t lo hi
    unfolding eval_trigger_bounds
    covered-StaysOpen step g t tsl lo hi c l h =
        split_bind (optional_trigger t step tsl) _ c.evaluated λ next h1 k1.
          trigger_quiet t next g lo hi (subst (Within g) (sym (ok_inj k1)) c.within) l h
