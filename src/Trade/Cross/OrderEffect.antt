-- ===== src/Trade/Cross/OrderEffect.antt =====
-- What a market order does to the cross position, whatever branch it takes.
use quantoxide.Prelude.{
  Bool-cases, ap, arith, if◌then◌else◌, inl, inr, ltb, not, ok, refl, split_bind, subst, sym, ℕ,
  ◌&&◌, ◌+◌, ◌==◌, ◌∙◌, ◌≡◌,
}
use quantoxide.Prelude.Int.{int_laws, neg_part, pos_part, ◌+ℤ◌}
use quantoxide.Sdk.{CrossExposure, Sdk, TradeSide, neutral, running}
use quantoxide.Sdk.Laws.{ExposureLaws, QuantityLaws}
use quantoxide.Trade.Cross.{
  SimulatedCrossPosition, close_exposure, close_on, cross_close, cross_quantity, exposure_signed,
  side_eq, signed_quantity,
}
use quantoxide.Trade.Cross.NetQuantity.{
  Leaves, Leaves-fees, close-Leaves, increase-Leaves, order_costs-eq-ok, reduce-Leaves,
  reverse-Leaves, running-Leaves, side_eq-true, signed, signed_quantity-eq-signed,
}
use quantoxide.Trade.Cross.Order.{
  increase, order_costs, order_on, order_on_flat, order_on_running, reduce, reverse_exposure,
  with_market_order,
}

module _ ⦃sdk : Sdk⦄ where
  open sdk use {
    Price, PercentageCapped, CrossQuantity, cross_as_u64, CrossExposureRunning, exposure_side,
    exposure_quantity, evaluate_cross_order_fee,
  }

  module _ (laws : ExposureLaws) (numbers : QuantityLaws) where
    -- The branches that pay the order's fee first.
    paid_branch-Leaves :
        (p : SimulatedCrossPosition) (e : CrossExposureRunning) (price : Price) (s : TradeSide)
        (q : CrossQuantity) (c : ℕ × ℕ) {p' : SimulatedCrossPosition}
        → (if side_eq (exposure_side e) s
            then increase p e price q c
            else if ltb (cross_as_u64 (exposure_quantity e)) (cross_as_u64 q)
            then reverse_exposure p e price s q c
            else reduce p e price q c)
          ≡ ok p'
        → Leaves p
            (signed (exposure_side e) (cross_as_u64 (exposure_quantity e))
              +ℤ signed s (cross_as_u64 q))
            c.1
            p'
    paid_branch-Leaves p e price s q c h = elim (Bool-cases (side_eq (exposure_side e) s)) [
      | inl same ↦
          rw (← side_eq-true (exposure_side e) s same)
            (increase-Leaves laws numbers p e price q c (rw same at h))
      | inr ne ↦ elim (Bool-cases (ltb (cross_as_u64 (exposure_quantity e)) (cross_as_u64 q))) [
        | inl more ↦ reverse-Leaves laws numbers p e price s q c ne (rw (ne, more) at h)
        | inr less ↦ reduce-Leaves laws numbers p e price s q c ne (rw (ne, less) at h)
      ]
    ]

    cross_close_running :
        (p : SimulatedCrossPosition) (e : CrossExposureRunning) (price : Price)
        (fee : PercentageCapped)
        → p.exposure ≡ running e
        → cross_close p price fee ≡ close_exposure p e price fee
    unfolding cross_close close_on
    cross_close_running p e price fee ex = ap (λ x. close_on x p price fee) ex

    order_on_running-Leaves :
        (p : SimulatedCrossPosition) (e : CrossExposureRunning) (price : Price) (s : TradeSide)
        (q : CrossQuantity) (fee : PercentageCapped) {p' : SimulatedCrossPosition}
        → p.exposure ≡ running e
        → order_on_running p e price s q fee ≡ ok p'
        → Leaves p
            (signed (exposure_side e) (cross_as_u64 (exposure_quantity e))
              +ℤ signed s (cross_as_u64 q))
            (p.trading_fees + evaluate_cross_order_fee fee q price)
            p'
    unfolding order_on_running
    order_on_running-Leaves p e price s q fee {p' = p'} ex h =
        elim (Bool-cases (
          not (side_eq (exposure_side e) s)
          && cross_as_u64 q == cross_as_u64 (exposure_quantity e))) [
            | inl exact ↦
                close-Leaves laws numbers p e price s q fee (ground arith) (ground arith)
                  (sym (cross_close_running p e price fee ex) ∙ rw exact at h)
            | inr inexact ↦ split_bind (order_costs p price q fee) _ (rw inexact at h) λ c h1 k1.
                Leaves-fees (order_costs-eq-ok p price q fee h1).1
                  (paid_branch-Leaves p e price s q c k1)
          ]

    order_on_flat-Leaves :
        (p : SimulatedCrossPosition) (price : Price) (s : TradeSide) (q : CrossQuantity)
        (fee : PercentageCapped) {p' : SimulatedCrossPosition}
        → order_on_flat p price s q fee ≡ ok p'
        → Leaves p
            (signed s (cross_as_u64 q))
            (p.trading_fees + evaluate_cross_order_fee fee q price)
            p'
    unfolding order_on_flat
    order_on_flat-Leaves p price s q fee {p' = p'} h =
        split_bind (order_costs p price q fee) _ h λ c h1 k1.
          Leaves-fees (order_costs-eq-ok p price q fee h1).1
            (running-Leaves laws numbers p c.1 c.0 s q price p.realized_pl _ k1 refl)

    order_on-Leaves :
        (x : CrossExposure CrossExposureRunning) (p : SimulatedCrossPosition) (price : Price)
        (s : TradeSide) (q : CrossQuantity) (fee : PercentageCapped) {p' : SimulatedCrossPosition}
        → p.exposure ≡ x
        → order_on x p price s q fee ≡ ok p'
        → Leaves p
            (exposure_signed x +ℤ signed_quantity s q)
            (p.trading_fees + evaluate_cross_order_fee fee q price)
            p'
    unfolding order_on exposure_signed
    order_on-Leaves neutral p price s q fee {p' = p'} ex h =
        subst (λ n. Leaves p n (p.trading_fees + evaluate_cross_order_fee fee q price) p')
          (omega (
            int_laws,
            ap pos_part (signed_quantity-eq-signed laws numbers s q),
            ap neg_part (signed_quantity-eq-signed laws numbers s q),
          ))
          (order_on_flat-Leaves p price s q fee h)
    order_on-Leaves (running e) p price s q fee ex h =
        rw
          (
            signed_quantity-eq-signed laws numbers s q,
            signed_quantity-eq-signed laws numbers (exposure_side e) (exposure_quantity e),
          )
          (order_on_running-Leaves p e price s q fee ex h)

    -- Given what the crate promises of exposures and quantities: a market order that succeeds adds
    -- its signed quantity to the signed quantity of the position and the fee of the order to its
    -- trading fees, whether it opens, increases, reduces, closes or reverses the position, and it
    -- leaves the leverage and the session's funding fees as they were.
    pub with_market_order-adds :
        (p : SimulatedCrossPosition) (price : Price) (s : TradeSide) (q : CrossQuantity)
        (fee : PercentageCapped) (p' : SimulatedCrossPosition)
        → with_market_order p price s q fee ≡ ok p'
        → (cross_quantity p' ≡ cross_quantity p +ℤ signed_quantity s q)
          × (p'.trading_fees ≡ p.trading_fees + evaluate_cross_order_fee fee q price)
          × (p'.leverage ≡ p.leverage)
          × (p'.session_funding_fees ≡ p.session_funding_fees)
    unfolding with_market_order cross_quantity
    with_market_order-adds p price s q fee p' h =
        let l = order_on-Leaves p.exposure p price s q fee refl h in
        (unfold cross_quantity in l.quantity_is, l.fees_are, l.leverage_same, l.funding_same)
