-- ===== src/Trade/Cross/NetQuantity.antt =====
-- The branches of `with_market_order`, each with the signed quantity that it leaves.
use quantoxide.Prelude.{
  Bool-cases, Result, ap, arith, false, inl, inr, ok, split_bind, split_map_err, split_ok_or, sym,
  true, ℕ, ◌+◌, ◌-◌, ◌∙◌, ◌≡◌,
}
use quantoxide.Prelude.Int.{int_laws, leb_ℤ, neg_part, neg_parts, pos, pos_part, ℤ, ◌+ℤ◌, ◌-ℤ◌}
use quantoxide.Prelude.Machine.{
  i64_checked, i64_checked-eq-some, i64_checked_neg, i64_try_from, i64_try_from-eq-some,
  u64_checked, u64_checked-eq-some, wrap_of_i64,
}
use quantoxide.Sdk.{Sdk, TradeSide, buy, sell}
use quantoxide.Sdk.Laws.{ExposureLaws, QuantityLaws}
use quantoxide.Trade.Cross.{
  SimulatedCrossPosition, apply_amount_to_margin, close_exposure, cross_quantity, exposure_signed,
  pl_floor, side_eq, signed_quantity,
}
use quantoxide.Trade.Cross.Accounting.{
  apply_amount-eq-ok, close_exposure-IsClosedFrom, running_exposure_facts,
}
use quantoxide.Trade.Cross.Order.{
  carried_entry_price, increase, order_costs, reduce, reduce_in_loss, reduce_in_profit,
  reverse_exposure, with_running_exposure,
}
use quantoxide.Trade.Error.{
  SimulatedTradeExecutorError, cross_position_overflow, cross_quantity_validation,
}

module _ ⦃sdk : Sdk⦄ where
  open sdk use {
    Price, PercentageCapped, CrossQuantity, cross_as_u64, cross_try_add, cross_try_sub,
    CrossExposureRunning, exposure_side, exposure_quantity, exposure_entry_price,
    evaluate_cross_order_fee,
  }

  abbrev pub signed : TradeSide → ℕ → ℤ
  signed buy n = pos n
  signed sell n = pos 0 -ℤ pos n

  pub side_eq-true : (s o : TradeSide) → side_eq s o ≡ true → s ≡ o
  side_eq-true s o h = ground arith

  signed-add : (s : TradeSide) (a b : ℕ) → signed s (a + b) ≡ signed s a +ℤ signed s b
  signed-add buy a b = omega int_laws
  signed-add sell a b = omega int_laws

  signed_residual :
      (s o : TradeSide) (a b c : ℕ)
      → side_eq s o ≡ false
      → c + a ≡ b
      → signed o c ≡ signed s a +ℤ signed o b
  signed_residual buy buy a b c h e = cc
  signed_residual buy sell a b c h e = omega int_laws
  signed_residual sell buy a b c h e = omega int_laws
  signed_residual sell sell a b c h e = cc

  signed_rest :
      (s o : TradeSide) (a b c : ℕ)
      → side_eq s o ≡ false
      → c + b ≡ a
      → signed s c ≡ signed s a +ℤ signed o b
  signed_rest buy buy a b c h e = cc
  signed_rest buy sell a b c h e = omega int_laws
  signed_rest sell buy a b c h e = omega int_laws
  signed_rest sell sell a b c h e = cc

  signed_cancel :
      (s o : TradeSide) (a b : ℕ) → side_eq s o ≡ false → a ≡ b → pos 0 ≡ signed s a +ℤ signed o b
  signed_cancel buy buy a b h e = cc
  signed_cancel buy sell a b h e = omega int_laws
  signed_cancel sell buy a b h e = omega int_laws
  signed_cancel sell sell a b h e = cc

  costs_margin :
      (before m : ℕ) (x y : ℤ) (cost : ℕ)
      → x ≡ pos cost
      → y ≡ pos 0 -ℤ x
      → m ≡ before + pos_part y - neg_part y
      → m ≡ before - cost
  costs_margin before m x y cost ex ey em =
      omega (int_laws, ap pos_part ex, ap neg_part ex, ap pos_part ey, ap neg_part ey)

  costs_facts :
      (m f m' f' : ℕ) {c : ℕ × ℕ}
      → ◌≡◌ {A = Result (ℕ × ℕ) SimulatedTradeExecutorError} (ok (m, f)) (ok c)
      → m ≡ m'
      → f ≡ f'
      → (c.0 ≡ m') × (c.1 ≡ f')
  costs_facts m f m' f' e em ef = ground arith

  pub order_costs-eq-ok :
      (p : SimulatedCrossPosition) (price : Price) (q : CrossQuantity) (fee : PercentageCapped)
      {c : ℕ × ℕ}
      → order_costs p price q fee ≡ ok c
      → let cost = evaluate_cross_order_fee fee q price in
        (c.0 ≡ p.margin - cost) × (c.1 ≡ p.trading_fees + cost)
  unfolding order_costs
  order_costs-eq-ok p price q fee h =
      let cost = evaluate_cross_order_fee fee q price in
      split_ok_or (i64_try_from cost) cross_position_overflow _ h λ x h1 k1.
        split_ok_or (i64_checked_neg x) cross_position_overflow _ k1 λ y h2 k2.
          split_bind (apply_amount_to_margin p.margin y) _ k2 λ m h3 k3.
            split_ok_or (u64_checked (p.trading_fees + cost)) cross_position_overflow _ k3
              λ f h4 k4.
                costs_facts m f _ _ k4
                  (costs_margin p.margin m x y cost (i64_try_from-eq-some cost h1)
                    (i64_checked-eq-some _ h2) (apply_amount-eq-ok p.margin y h3))
                  (u64_checked-eq-some _ h4).0

  -- The quantity of the exposure that a branch leaves, and what every branch keeps.
  pub record Leaves (p : SimulatedCrossPosition) (net : ℤ) (fees : ℕ) (p' : SimulatedCrossPosition)
      : Type 0 where
    pub quantity_is : cross_quantity p' ≡ net
    pub fees_are : p'.trading_fees ≡ fees
    pub leverage_same : p'.leverage ≡ p.leverage
    pub funding_same : p'.session_funding_fees ≡ p.session_funding_fees

  pub Leaves-fees :
      {p p' : SimulatedCrossPosition} {net : ℤ} {f f' : ℕ}
      → f ≡ f'
      → Leaves p net f p'
      → Leaves p net f' p'
  Leaves-fees e l = record {
    quantity_is = l.quantity_is;
    fees_are = l.fees_are ∙ e;
    leverage_same = l.leverage_same;
    funding_same = l.funding_same;
  }

  module _ (laws : ExposureLaws) (numbers : QuantityLaws) where
    pub signed_quantity-eq-signed :
        (s : TradeSide) (q : CrossQuantity) → signed_quantity s q ≡ signed s (cross_as_u64 q)
    unfolding signed_quantity
    signed_quantity-eq-signed buy q = numbers.as_i64_exact q
    signed_quantity-eq-signed sell q =
        let parts = neg_parts (cross_as_u64 q) in
        rw (numbers.as_i64_exact q) (
          wrap_of_i64 (pos 0 -ℤ pos (cross_as_u64 q)) (omega (arith, parts))
            (omega (arith, parts, numbers.as_u64_bound q)))

    pub running-Leaves :
        (p : SimulatedCrossPosition) (f m : ℕ) (s : TradeSide) (q : CrossQuantity) (ep : Price)
        (r net : ℤ) {p' : SimulatedCrossPosition}
        → with_running_exposure p f m s q ep r ≡ ok p'
        → signed s (cross_as_u64 q) ≡ net
        → Leaves p net f p'
    running-Leaves p f m s q ep r net h e =
        let facts = running_exposure_facts laws p f m s q ep r h in
        record {
          quantity_is = facts.0 ∙ signed_quantity-eq-signed s q ∙ e;
          fees_are = facts.1;
          leverage_same = facts.4;
          funding_same = facts.5;
        }

    pub increase-Leaves :
        (p : SimulatedCrossPosition) (e : CrossExposureRunning) (price : Price) (q : CrossQuantity)
        (c : ℕ × ℕ) {p' : SimulatedCrossPosition}
        → increase p e price q c ≡ ok p'
        → Leaves p
            (signed (exposure_side e) (cross_as_u64 (exposure_quantity e))
              +ℤ signed (exposure_side e) (cross_as_u64 q))
            c.1
            p'
    unfolding increase
    increase-Leaves p e price q (m, f) h =
        split_map_err cross_quantity_validation (cross_try_add (exposure_quantity e) q) _ h
          λ total h1 k1. running-Leaves p f m (exposure_side e) total _ p.realized_pl _ k1 (
            ap (signed (exposure_side e)) (numbers.try_add_exact _ _ total h1)
            ∙ signed-add (exposure_side e) (cross_as_u64 (exposure_quantity e)) (cross_as_u64 q))

    pub reverse-Leaves :
        (p : SimulatedCrossPosition) (e : CrossExposureRunning) (price : Price) (s : TradeSide)
        (q : CrossQuantity) (c : ℕ × ℕ) {p' : SimulatedCrossPosition}
        → side_eq (exposure_side e) s ≡ false
        → reverse_exposure p e price s q c ≡ ok p'
        → Leaves p
            (signed (exposure_side e) (cross_as_u64 (exposure_quantity e))
              +ℤ signed s (cross_as_u64 q))
            c.1
            p'
    unfolding reverse_exposure
    reverse-Leaves p e price s q (m, f) ne h =
        let realized =
          pl_floor (exposure_side e) (exposure_quantity e) (exposure_entry_price e) price in
        split_bind (apply_amount_to_margin m realized) _ h λ m' h1 k1.
          split_map_err cross_quantity_validation (cross_try_sub q (exposure_quantity e)) _ k1
            λ rest h2 k2.
              split_ok_or (i64_checked (p.realized_pl +ℤ realized)) cross_position_overflow _ k2
                λ r h3 k3.
                  running-Leaves p f m' s rest price r _ k3 (
                    signed_residual (exposure_side e) s _ _ _ ne
                      (numbers.try_sub_exact _ _ rest h2))

    pub reduce-Leaves :
        (p : SimulatedCrossPosition) (e : CrossExposureRunning) (price : Price) (s : TradeSide)
        (q : CrossQuantity) (c : ℕ × ℕ) {p' : SimulatedCrossPosition}
        → side_eq (exposure_side e) s ≡ false
        → reduce p e price q c ≡ ok p'
        → Leaves p
            (signed (exposure_side e) (cross_as_u64 (exposure_quantity e))
              +ℤ signed s (cross_as_u64 q))
            c.1
            p'
    unfolding reduce reduce_in_profit reduce_in_loss
    reduce-Leaves p e price s q (m, f) ne h =
        let realized = pl_floor (exposure_side e) q (exposure_entry_price e) price in
        split_map_err cross_quantity_validation (cross_try_sub (exposure_quantity e) q) _ h
          λ rest h1 k1.
            let net =
              signed_rest (exposure_side e) s _ _ _ ne (numbers.try_sub_exact _ _ rest h1) in
            elim (Bool-cases (leb_ℤ (pos 0) realized)) [
              | inl t ↦ split_bind (apply_amount_to_margin m realized) _ (rw t at k1) λ m' h2 k2.
                  split_ok_or (i64_checked (p.realized_pl +ℤ realized)) cross_position_overflow _ k2
                    λ r h3 k3.
                      running-Leaves p f m' (exposure_side e) rest (exposure_entry_price e) r _ k3
                        net
              | inr t ↦
                  running-Leaves p f m (exposure_side e) rest (carried_entry_price e rest price)
                    p.realized_pl _ (rw t at k1) net
            ]

    -- A close: neutral, with the fee on the quantity that was held.
    pub close-Leaves :
        (p : SimulatedCrossPosition) (e : CrossExposureRunning) (price : Price) (s : TradeSide)
        (q : CrossQuantity) (fee : PercentageCapped) {p' : SimulatedCrossPosition}
        → side_eq (exposure_side e) s ≡ false
        → cross_as_u64 q ≡ cross_as_u64 (exposure_quantity e)
        → close_exposure p e price fee ≡ ok p'
        → Leaves p
            (signed (exposure_side e) (cross_as_u64 (exposure_quantity e))
              +ℤ signed s (cross_as_u64 q))
            (p.trading_fees + evaluate_cross_order_fee fee q price)
            p'
    unfolding cross_quantity exposure_signed
    close-Leaves p e price s q fee {p' = p'} ne same h =
        let done = close_exposure-IsClosedFrom laws p e price fee h in
        let same_quantity = numbers.as_u64_injective q (exposure_quantity e) same in
        record {
          quantity_is =
              rw (done.exposure_neutral, exposure_signed)
                (signed_cancel (exposure_side e) s _ _ ne (sym same));
          fees_are = rw same_quantity done.fees_grow;
          leverage_same = done.leverage_kept;
          funding_same = done.funding_kept;
        }
