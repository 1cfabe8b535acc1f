-- ===== src/Trade/Cross/Accounting.antt =====
-- What the operations of the cross position do to its quantity, margin, fees and profit.
use quantoxide.Prelude.{
  Option, Result-cases, ap, arith, inl, inr, none, ok, some, split_bind, split_ok_or, ℕ, ◌+◌, ◌-◌,
  ◌≡◌,
}
use quantoxide.Prelude.Int.{int_laws, neg_part, pos, pos_part, ℤ, ◌+ℤ◌, ◌-ℤ◌}
use quantoxide.Prelude.Machine.{
  i64_checked, i64_checked-eq-some, i64_try_from, i64_try_from-eq-some, u64_checked,
  u64_checked-eq-some,
}
use quantoxide.Sdk.{Sdk, TradeSide, neutral}
use quantoxide.Sdk.Laws.{ExposureLaws}
use quantoxide.Trade.Cross.{
  SimulatedCrossPosition, apply_amount_to_margin, close_exposure, cross_new, cross_quantity,
  exposure_signed, pl_floor, signed_quantity,
}
use quantoxide.Trade.Cross.Order.{with_running_exposure}
use quantoxide.Trade.Error.{cross_position_overflow}

module _ ⦃sdk : Sdk⦄ where
  open sdk use {
    Price, PercentageCapped, CrossQuantity, CrossLeverage, CrossExposureRunning, exposure_side,
    exposure_quantity, exposure_entry_price, cross_exposure_new, evaluate_cross_order_fee,
  }

  pub cross_new-eq-ok :
      (m : ℕ) (l : CrossLeverage) (params : Option (TradeSide × CrossQuantity × Price)) (f : ℕ)
      (s r : ℤ) {p : SimulatedCrossPosition}
      → cross_new m l params f s r ≡ ok p
      → (cross_exposure_new m l params ≡ ok p.exposure)
        × (p.margin ≡ m)
        × (p.leverage ≡ l)
        × (p.trading_fees ≡ f)
        × (p.session_funding_fees ≡ s)
        × (p.realized_pl ≡ r)
  unfolding cross_new
  cross_new-eq-ok m l params f s r h = elim (Result-cases (cross_exposure_new m l params)) [
    | inl (x, e) ↦ ground arith
    | inr (x, e) ↦ ground arith
  ]

  pub apply_amount-eq-ok :
      (m : ℕ) (a : ℤ) {r : ℕ} → apply_amount_to_margin m a ≡ ok r → r ≡ m + pos_part a - neg_part a
  unfolding apply_amount_to_margin
  apply_amount-eq-ok m a h = ground arith

  -- A neutral position with the profit and the fee booked.
  pub record IsClosedFrom (p : SimulatedCrossPosition) (pl : ℤ) (cost : ℕ)
      (p' : SimulatedCrossPosition) : Type 0 where
    pub exposure_neutral : p'.exposure ≡ neutral
    pub fees_grow : p'.trading_fees ≡ p.trading_fees + cost
    pub pl_booked : p'.realized_pl ≡ p.realized_pl +ℤ pl
    pub funding_kept : p'.session_funding_fees ≡ p.session_funding_fees
    pub leverage_kept : p'.leverage ≡ p.leverage
    pub margin_settled : p'.margin ≡ p.margin + pos_part pl - (neg_part pl + cost)

  closed_facts :
      (p : SimulatedCrossPosition) (pl : ℤ) (cost : ℕ) (c delta : ℤ) (m f : ℕ) (r : ℤ)
      {p' : SimulatedCrossPosition}
      → cross_exposure_new m p.leverage none ≡ ok neutral
      → (cross_exposure_new m p.leverage none ≡ ok p'.exposure)
        × (p'.margin ≡ m)
        × (p'.leverage ≡ p.leverage)
        × (p'.trading_fees ≡ f)
        × (p'.session_funding_fees ≡ p.session_funding_fees)
        × (p'.realized_pl ≡ r)
      → c ≡ pos cost
      → delta ≡ pl -ℤ c
      → m ≡ p.margin + pos_part delta - neg_part delta
      → f ≡ p.trading_fees + cost
      → r ≡ p.realized_pl +ℤ pl
      → IsClosedFrom p pl cost p'
  closed_facts p pl cost c delta m f r neutral_new facts ec ed em ef er = record {
    exposure_neutral = cc;
    fees_grow = cc;
    pl_booked = cc;
    funding_kept = facts.4;
    leverage_kept = facts.2;
    margin_settled =
        omega (int_laws, ap pos_part ed, ap neg_part ed, ap pos_part ec, ap neg_part ec);
  }

  module _ (laws : ExposureLaws) where
    pub running_exposure_facts :
        (p : SimulatedCrossPosition) (f m : ℕ) (s : TradeSide) (q : CrossQuantity) (ep : Price)
        (r : ℤ) {p' : SimulatedCrossPosition}
        → with_running_exposure p f m s q ep r ≡ ok p'
        → (cross_quantity p' ≡ signed_quantity s q)
          × (p'.trading_fees ≡ f)
          × (p'.margin ≡ m)
          × (p'.realized_pl ≡ r)
          × (p'.leverage ≡ p.leverage)
          × (p'.session_funding_fees ≡ p.session_funding_fees)
    unfolding with_running_exposure cross_quantity exposure_signed
    running_exposure_facts p f m s q ep r {p' = p'} h =
        let facts = cross_new-eq-ok m p.leverage (some (s, q, ep)) f p.session_funding_fees r h in
        let (x, ex, es, eq, ep') = laws.new_running m p.leverage s q ep p'.exposure facts.0 in
        ground arith

    -- Given what the crate promises of exposures: closing an exposure, when it succeeds, leaves a
    -- neutral position with the same leverage and session's funding fees, adds the floored profit or
    -- loss to the realized one and the fee to the trading fees, and changes the margin by the profit
    -- less the fee, down to zero at the least.
    pub close_exposure-IsClosedFrom :
        (p : SimulatedCrossPosition) (e : CrossExposureRunning) (price : Price)
        (fee : PercentageCapped) {p' : SimulatedCrossPosition}
        → close_exposure p e price fee ≡ ok p'
        → IsClosedFrom p
            (pl_floor (exposure_side e) (exposure_quantity e) (exposure_entry_price e) price)
            (evaluate_cross_order_fee fee (exposure_quantity e) price)
            p'
    unfolding close_exposure
    close_exposure-IsClosedFrom p e price fee h =
        let pl = pl_floor (exposure_side e) (exposure_quantity e) (exposure_entry_price e) price in
        let cost = evaluate_cross_order_fee fee (exposure_quantity e) price in
        split_ok_or (i64_try_from cost) cross_position_overflow _ h λ c h1 k1.
          split_ok_or (i64_checked (pl -ℤ c)) cross_position_overflow _ k1 λ delta h2 k2.
            split_bind (apply_amount_to_margin p.margin delta) _ k2 λ m h3 k3.
              split_ok_or (u64_checked (p.trading_fees + cost)) cross_position_overflow _ k3
                λ f h4 k4.
                  split_ok_or (i64_checked (p.realized_pl +ℤ pl)) cross_position_overflow _ k4
                    λ r h5 k5.
                      closed_facts p pl cost c delta m f r (laws.new_neutral m p.leverage)
                        (cross_new-eq-ok m p.leverage none f p.session_funding_fees r k5)
                        (i64_try_from-eq-some cost h1) (i64_checked-eq-some _ h2)
                        (apply_amount-eq-ok p.margin delta h3) (u64_checked-eq-some _ h4).0
                        (i64_checked-eq-some _ h5)
