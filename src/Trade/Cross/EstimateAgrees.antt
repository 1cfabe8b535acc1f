-- ===== src/Trade/Cross/EstimateAgrees.antt =====
-- The estimated entry price of another exposure is the one that a market order leads to.
use quantoxide.Prelude.{
  Bool-cases, arith, false, inl, inr, ltb, none, not, ok, ok_inj, refl, some, split_bind,
  split_map_err, split_ok_or, subst, sym, true, ℕ, ◌&&◌, ◌+◌, ◌<◌, ◌==◌, ◌∙◌, ◌≡◌,
}
use quantoxide.Prelude.Int.{leb_ℤ, pos, ℤ, ◌+ℤ◌, ◌-ℤ◌}
use quantoxide.Prelude.Machine.{i64_checked, i64_try_from, u64_checked}
use quantoxide.Sdk.{CrossExposure, Sdk, TradeSide, buy, neutral, running, sell}
use quantoxide.Sdk.Laws.{DifferenceLaw, ExposureLaws, QuantityLaws}
use quantoxide.Trade.Cross.{
  SimulatedCrossPosition, apply_amount_to_margin, close_exposure, close_on, cross_close, cross_new,
  pl_floor, side_eq,
}
use quantoxide.Trade.Cross.Estimate.{
  est_entry_price_for_exposure, est_reduced_entry, est_same_side_entry,
}
use quantoxide.Trade.Cross.Order.{
  increase, order_costs, order_on, order_on_flat, order_on_running, reduce, reduce_in_loss,
  reduce_in_profit, reverse_exposure, with_market_order, with_running_exposure,
}
use quantoxide.Trade.Error.{
  cross_exposure_validation, cross_position_overflow, cross_quantity_validation,
}

module _ ⦃sdk : Sdk⦄ where
  open sdk use {
    Price, PercentageCapped, CrossQuantity, cross_as_u64, cross_try_add, cross_try_sub,
    CrossLeverage, CrossExposureRunning, exposure_side, exposure_quantity, exposure_entry_price,
    cross_exposure_new, evaluate_cross_order_fee, aggregate_cross_entry_price,
  }

  -- Where the exposure is running, its entry price is the estimated one.
  abbrev pub EntryIsEstimated :
      CrossExposure CrossExposureRunning → Price → CrossExposure CrossExposureRunning → Type 0
  EntryIsEstimated before market_price neutral = Unit
  EntryIsEstimated before market_price (running r) =
      est_entry_price_for_exposure before (exposure_side r) (exposure_quantity r) market_price
      ≡ some (exposure_entry_price r)

  side_eq_refl : (s : TradeSide) → side_eq s s ≡ true
  side_eq_refl buy = refl
  side_eq_refl sell = refl

  module _ (laws : ExposureLaws) (numbers : QuantityLaws) (differences : DifferenceLaw) where
    -- What is begun at the estimated price is estimated.
    cross_new-EntryIsEstimated :
        (before : CrossExposure CrossExposureRunning) (market_price : Price) (margin : ℕ)
        (leverage : CrossLeverage) (side : TradeSide) (quantity : CrossQuantity) (entry : Price)
        (fees : ℕ) (funding pl : ℤ) (p' : SimulatedCrossPosition)
        → cross_new margin leverage (some (side, quantity, entry)) fees funding pl ≡ ok p'
        → est_entry_price_for_exposure before side quantity market_price ≡ some entry
        → EntryIsEstimated before market_price p'.exposure
    unfolding cross_new
    cross_new-EntryIsEstimated before market_price margin leverage side quantity entry fees funding
          pl p' h k =
        split_map_err cross_exposure_validation
          (cross_exposure_new margin leverage (some (side, quantity, entry))) _ h
          λ x h1 k1.
            let made = laws.new_running margin leverage side quantity entry x h1 in
            let begun : EntryIsEstimated before market_price (running made.0) =
              rw (made.2, made.3, made.4) k in
            subst (λ (x : SimulatedCrossPosition). EntryIsEstimated before market_price x.exposure)
              (ok_inj k1) (subst (EntryIsEstimated before market_price) (sym made.1) begun)

    order_on_flat-EntryIsEstimated :
        (p : SimulatedCrossPosition) (market_price : Price) (s : TradeSide) (q : CrossQuantity)
        (fee : PercentageCapped) (p' : SimulatedCrossPosition)
        → order_on_flat p market_price s q fee ≡ ok p'
        → EntryIsEstimated neutral market_price p'.exposure
    unfolding order_on_flat with_running_exposure est_entry_price_for_exposure
    order_on_flat-EntryIsEstimated p market_price s q fee p' h =
        split_bind (order_costs p market_price q fee) _ h λ c h1 k1.
          cross_new-EntryIsEstimated neutral market_price c.0 p.leverage s q market_price c.1
            p.session_funding_fees p.realized_pl p' k1 refl

    module _ (e : CrossExposureRunning) (market_price : Price) where
      increased-estimate :
          (q n : CrossQuantity)
          → cross_try_add (exposure_quantity e) q ≡ ok n
          → 0 < cross_as_u64 q
          → est_same_side_entry e n market_price
            ≡ some (
                aggregate_cross_entry_price
                  (exposure_quantity e)
                  (exposure_entry_price e)
                  q
                  market_price)
      unfolding est_same_side_entry
      increased-estimate q n h positive =
          let sum = numbers.try_add_exact (exposure_quantity e) q n h in
          let more : ltb (cross_as_u64 (exposure_quantity e)) (cross_as_u64 n) ≡ true =
            ground (arith, sum, positive) in
          let d =
            differences.try_sub_defined n (exposure_quantity e) (omega (arith, sum, positive)) in
          let back = numbers.try_sub_exact n (exposure_quantity e) d.0 d.1 in
          let same : d.0 ≡ q = numbers.as_u64_injective d.0 q (omega (arith, back, sum)) in
          rw (more, d.1, same) refl

      reduced-estimate :
          (q n : CrossQuantity)
          → cross_try_sub (exposure_quantity e) q ≡ ok n
          → 0 < cross_as_u64 q
          → est_same_side_entry e n market_price ≡ some (est_reduced_entry e n q market_price)
      unfolding est_same_side_entry
      reduced-estimate q n h positive =
          let sum = numbers.try_sub_exact (exposure_quantity e) q n h in
          let less : ltb (cross_as_u64 (exposure_quantity e)) (cross_as_u64 n) ≡ false =
            ground (arith, sum, positive) in
          let other : (cross_as_u64 n == cross_as_u64 (exposure_quantity e)) ≡ false =
            ground (arith, sum, positive) in
          let d =
            differences.try_sub_defined (exposure_quantity e) n (omega (arith, sum, positive)) in
          let back = numbers.try_sub_exact (exposure_quantity e) n d.0 d.1 in
          let same : d.0 ≡ q = numbers.as_u64_injective d.0 q (omega (arith, back, sum)) in
          rw (less, other, d.1, same) refl

      same_side_estimate :
          (n : CrossQuantity)
          → est_entry_price_for_exposure (running e) (exposure_side e) n market_price
            ≡ est_same_side_entry e n market_price
      unfolding est_entry_price_for_exposure
      same_side_estimate n = rw (side_eq_refl (exposure_side e)) refl

      increase-EntryIsEstimated :
          (p : SimulatedCrossPosition) (q : CrossQuantity) (c : ℕ × ℕ) (p' : SimulatedCrossPosition)
          → 0 < cross_as_u64 q
          → increase p e market_price q c ≡ ok p'
          → EntryIsEstimated (running e) market_price p'.exposure
      unfolding increase with_running_exposure
      increase-EntryIsEstimated p q (margin, fees) p' positive h =
          split_map_err cross_quantity_validation (cross_try_add (exposure_quantity e) q) _ h
            λ n h1 k1.
              cross_new-EntryIsEstimated (running e) market_price margin p.leverage
                (exposure_side e) n _ fees p.session_funding_fees p.realized_pl p' k1
                (same_side_estimate n ∙ increased-estimate q n h1 positive)

      reverse-EntryIsEstimated :
          (p : SimulatedCrossPosition) (s : TradeSide) (q : CrossQuantity) (c : ℕ × ℕ)
          (p' : SimulatedCrossPosition)
          → side_eq (exposure_side e) s ≡ false
          → reverse_exposure p e market_price s q c ≡ ok p'
          → EntryIsEstimated (running e) market_price p'.exposure
      unfolding reverse_exposure with_running_exposure est_entry_price_for_exposure
      reverse-EntryIsEstimated p s q (margin, fees) p' other h =
          let realized =
            pl_floor (exposure_side e) (exposure_quantity e) (exposure_entry_price e)
              market_price in
          split_bind (apply_amount_to_margin margin realized) _ h λ m h1 k1.
            split_map_err cross_quantity_validation (cross_try_sub q (exposure_quantity e)) _ k1
              λ n h2 k2.
                split_ok_or (i64_checked (p.realized_pl +ℤ realized)) cross_position_overflow _ k2
                  λ pl h3 k3.
                    cross_new-EntryIsEstimated (running e) market_price m p.leverage s n
                      market_price fees p.session_funding_fees pl p' k3 (rw other refl)

      reduce-EntryIsEstimated :
          (p : SimulatedCrossPosition) (q : CrossQuantity) (c : ℕ × ℕ) (p' : SimulatedCrossPosition)
          → 0 < cross_as_u64 q
          → reduce p e market_price q c ≡ ok p'
          → EntryIsEstimated (running e) market_price p'.exposure
      unfolding reduce reduce_in_profit reduce_in_loss with_running_exposure est_reduced_entry
      reduce-EntryIsEstimated p q (margin, fees) p' positive h =
          split_map_err cross_quantity_validation (cross_try_sub (exposure_quantity e) q) _ h
            λ n h1 k1.
              let realized = pl_floor (exposure_side e) q (exposure_entry_price e) market_price in
              let estimate = same_side_estimate n ∙ reduced-estimate q n h1 positive in
              elim (Bool-cases (leb_ℤ (pos 0) realized)) [
                | inl gain ↦
                    split_bind (apply_amount_to_margin margin realized) _ (rw gain at k1) λ m h2 k2.
                      split_ok_or (i64_checked (p.realized_pl +ℤ realized)) cross_position_overflow
                        _ k2
                        λ pl h3 k3.
                          cross_new-EntryIsEstimated (running e) market_price m p.leverage
                            (exposure_side e) n _ fees p.session_funding_fees pl p' k3
                            (rw gain at estimate)
                | inr loss ↦
                    cross_new-EntryIsEstimated (running e) market_price margin p.leverage
                      (exposure_side e) n _ fees p.session_funding_fees p.realized_pl p'
                      (rw loss at k1) (rw loss at estimate)
              ]

    neutral-EntryIsEstimated :
        (before : CrossExposure CrossExposureRunning) (market_price : Price) (margin : ℕ)
        (leverage : CrossLeverage) (fees : ℕ) (funding pl : ℤ) (p' : SimulatedCrossPosition)
        → cross_new margin leverage none fees funding pl ≡ ok p'
        → EntryIsEstimated before market_price p'.exposure
    unfolding cross_new
    neutral-EntryIsEstimated before market_price margin leverage fees funding pl p' h =
        split_map_err cross_exposure_validation (cross_exposure_new margin leverage none) _ h
          λ x h1 k1.
            let same : neutral ≡ x = ok_inj (sym (laws.new_neutral margin leverage) ∙ h1) in
            subst (λ (y : SimulatedCrossPosition). EntryIsEstimated before market_price y.exposure)
              (ok_inj k1) (subst (EntryIsEstimated before market_price) same tt)

    close_exposure-EntryIsEstimated :
        (p : SimulatedCrossPosition) (e : CrossExposureRunning) (market_price : Price)
        (fee : PercentageCapped) (p' : SimulatedCrossPosition)
        → close_exposure p e market_price fee ≡ ok p'
        → EntryIsEstimated (running e) market_price p'.exposure
    unfolding close_exposure
    close_exposure-EntryIsEstimated p e market_price fee p' h =
        let cost = evaluate_cross_order_fee fee (exposure_quantity e) market_price in
        let gain =
          pl_floor (exposure_side e) (exposure_quantity e) (exposure_entry_price e) market_price in
        split_ok_or (i64_try_from cost) cross_position_overflow _ h λ f h1 k1.
          split_ok_or (i64_checked (gain -ℤ f)) cross_position_overflow _ k1 λ d h2 k2.
            split_bind (apply_amount_to_margin p.margin d) _ k2 λ m h3 k3.
              split_ok_or (u64_checked (p.trading_fees + cost)) cross_position_overflow _ k3
                λ t h4 k4.
                  split_ok_or (i64_checked (p.realized_pl +ℤ gain)) cross_position_overflow _ k4
                    λ pl h5 k5.
                      neutral-EntryIsEstimated (running e) market_price m p.leverage t
                        p.session_funding_fees pl p' k5

    cross_close-EntryIsEstimated :
        (x : CrossExposure CrossExposureRunning) (p : SimulatedCrossPosition)
        (e : CrossExposureRunning) (market_price : Price) (fee : PercentageCapped)
        (p' : SimulatedCrossPosition)
        → x ≡ running e
        → close_on x p market_price fee ≡ ok p'
        → EntryIsEstimated (running e) market_price p'.exposure
    unfolding close_on
    cross_close-EntryIsEstimated x p e market_price fee p' same h =
        close_exposure-EntryIsEstimated p e market_price fee p' (rw same at h)

    order_on_running-EntryIsEstimated :
        (p : SimulatedCrossPosition) (e : CrossExposureRunning) (market_price : Price)
        (s : TradeSide) (q : CrossQuantity) (fee : PercentageCapped) (p' : SimulatedCrossPosition)
        → 0 < cross_as_u64 q
        → p.exposure ≡ running e
        → order_on_running p e market_price s q fee ≡ ok p'
        → EntryIsEstimated (running e) market_price p'.exposure
    unfolding order_on_running cross_close
    order_on_running-EntryIsEstimated p e market_price s q fee p' positive same h =
        elim (Bool-cases (
          not (side_eq (exposure_side e) s)
          && cross_as_u64 q == cross_as_u64 (exposure_quantity e))) [
            | inl exact ↦
                cross_close-EntryIsEstimated p.exposure p e market_price fee p' same (rw exact at h)
            | inr inexact ↦
                split_bind (order_costs p market_price q fee) _ (rw inexact at h) λ c h1 k1.
                  elim (Bool-cases (side_eq (exposure_side e) s)) [
                    | inl aligned ↦
                        increase-EntryIsEstimated e market_price p q c p' positive
                          (rw aligned at k1)
                    | inr opposed ↦
                        elim (Bool-cases
                          (ltb (cross_as_u64 (exposure_quantity e)) (cross_as_u64 q))) [
                            | inl more ↦
                                reverse-EntryIsEstimated e market_price p s q c p' opposed
                                  (rw (opposed, more) at k1)
                            | inr less ↦
                                reduce-EntryIsEstimated e market_price p q c p' positive
                                  (rw (opposed, less) at k1)
                          ]
                  ]
          ]

    order_on-EntryIsEstimated :
        (x : CrossExposure CrossExposureRunning) (p : SimulatedCrossPosition) (market_price : Price)
        (s : TradeSide) (q : CrossQuantity) (fee : PercentageCapped) (p' : SimulatedCrossPosition)
        → 0 < cross_as_u64 q
        → p.exposure ≡ x
        → order_on x p market_price s q fee ≡ ok p'
        → EntryIsEstimated x market_price p'.exposure
    unfolding order_on
    order_on-EntryIsEstimated neutral p market_price s q fee p' positive same h =
        order_on_flat-EntryIsEstimated p market_price s q fee p' h
    order_on-EntryIsEstimated (running e) p market_price s q fee p' positive same h =
        order_on_running-EntryIsEstimated p e market_price s q fee p' positive same h

    -- Given what the crate promises of exposures and quantities: a market order that succeeds and
    -- leaves a running position leaves it with the entry price that `est_entry_price_for_exposure`
    -- gives beforehand for its side and quantity, whether the order opens, increases, reduces or
    -- reverses the position.
    pub with_market_order-EntryIsEstimated :
        (p : SimulatedCrossPosition) (market_price : Price) (s : TradeSide) (q : CrossQuantity)
        (fee : PercentageCapped) (p' : SimulatedCrossPosition)
        → 0 < cross_as_u64 q
        → with_market_order p market_price s q fee ≡ ok p'
        → EntryIsEstimated p.exposure market_price p'.exposure
    unfolding with_market_order
    with_market_order-EntryIsEstimated p market_price s q fee p' positive h =
        order_on-EntryIsEstimated p.exposure p market_price s q fee p' positive refl h
