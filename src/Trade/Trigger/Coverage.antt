-- ===== src/Trade/Trigger/Coverage.antt =====
-- What a price trigger says of the trades that it was updated with.
use quantoxide.Prelude.{Option, arith, inl, inr, ok, split_bind, subst, true, ◌≡◌}
use quantoxide.Sdk.{Sdk}
use quantoxide.Sdk.Laws.{PriceLaws}
use quantoxide.Trade.Simulated.{SimulatedTradeRunning}
use quantoxide.Trade.Stoploss.{TradeTrailingStoploss}
use quantoxide.Trade.Trigger.{
  PriceTrigger, eval_trigger_bounds, narrow, not_set, price_max, price_min, set, trigger_update,
}

module _ ⦃sdk : Sdk⦄ where
  open sdk use {Price, price_le, PercentageCapped}

  -- The trigger is set and lies inside the bounds.
  abbrev pub Within : PriceTrigger → Price × Price → Type 0
  Within not_set (lo, hi) = ⊥
  Within (set min_price max_price) (lo, hi) =
      (price_le lo min_price ≡ true) × (price_le max_price hi ≡ true)

  -- The trigger lies inside the bounds of the trade.
  pub record Covers (step : PercentageCapped) (g : PriceTrigger)
      (e : SimulatedTradeRunning × Option TradeTrailingStoploss) : Type 0 where
    pub bounds : Price × Price
    pub evaluated : eval_trigger_bounds e.0 step e.1 ≡ ok bounds
    pub within : Within g bounds

  module _ (laws : PriceLaws) where
    pub price_le_refl : (a : Price) → price_le a a ≡ true
    price_le_refl a = elim (laws.price_total a a) [ inl h ↦ h | inr h ↦ h ]

    pub price_max-left : (a b : Price) → price_le a (price_max a b) ≡ true
    unfolding price_max
    price_max-left a b = ground (arith, price_le_refl a)

    pub price_min-left : (a b : Price) → price_le (price_min a b) a ≡ true
    unfolding price_min
    price_min-left a b = ground (arith, laws.price_total a b, price_le_refl a)

    narrow-Within : (g : PriceTrigger) (b : Price × Price) → Within (narrow g b) b
    unfolding narrow
    narrow-Within not_set (lo, hi) = (price_le_refl lo, price_le_refl hi)
    narrow-Within (set mn mx) (lo, hi) = (price_max-left lo mn, price_min-left hi mx)

    narrow_keeps-Within :
        (g : PriceTrigger) (b c : Price × Price) → Within g b → Within (narrow g c) b
    unfolding narrow price_max price_min
    narrow_keeps-Within not_set (lo, hi) (l, h) w = absurd w
    narrow_keeps-Within (set mn mx) (lo, hi) (l, h) w = ground (
      arith,
      laws.price_total l mn,
      laws.price_total h mx,
      laws.price_trans lo mn l,
      laws.price_trans h mx hi,
    )

    pub trigger_update-Covers :
        (g : PriceTrigger) (step : PercentageCapped) (t : SimulatedTradeRunning)
        (tsl : Option TradeTrailingStoploss) {g' : PriceTrigger}
        → trigger_update g step t tsl ≡ ok g'
        → Covers step g' (t, tsl)
          × ((e : SimulatedTradeRunning × Option TradeTrailingStoploss)
              → Covers step g e
              → Covers step g' e)
    unfolding trigger_update
    trigger_update-Covers g step t tsl {g' = g'} h =
        split_bind (eval_trigger_bounds t step tsl) _ h λ b h1 k1.
          let same : narrow g b ≡ g' = ground arith in
          (
            record {
              bounds = b;
              evaluated = h1;
              within = subst (λ x. Within x b) same (narrow-Within g b);
            },
            λ e c. record {
              bounds = c.bounds;
              evaluated = c.evaluated;
              within =
                  subst (λ x. Within x c.bounds) same (narrow_keeps-Within g c.bounds b c.within);
            },
          )

    -- If `Price` is totally ordered in agreement with `f64`: an update of the trigger by a trade that
    -- ends well leaves a trigger inside the bounds of that trade, and inside those of every trade
    -- whose bounds the old trigger was inside of.
    trigger_update-keeps :
        (g : PriceTrigger) (step : PercentageCapped) (t : SimulatedTradeRunning)
        (tsl : Option TradeTrailingStoploss) (g' : PriceTrigger)
        (e : SimulatedTradeRunning × Option TradeTrailingStoploss)
        → trigger_update g step t tsl ≡ ok g'
        → Covers step g e
        → Covers step g' (t, tsl) × Covers step g' e
    trigger_update-keeps g step t tsl g' e h c =
        let (new, old) = trigger_update-Covers g step t tsl h in (new, old e c)
