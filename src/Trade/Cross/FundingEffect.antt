-- ===== src/Trade/Cross/FundingEffect.antt =====
-- What a funding settlement leaves of the cross position.
use quantoxide.Db.{FundingSettlementRow}
use quantoxide.Prelude.{
  Bool, Bool-cases, Result, ap, err, err_absurd, false, inl, inr, leb, none, ok, ok_inj, refl,
  split_bind, split_ok_or, subst, sym, true, ◌&&◌, ◌∙◌, ◌≡◌, ◌⊎◌,
}
use quantoxide.Prelude.Int.{int_laws, ltb_ℤ, pos, pos_part, ℤ, ◌+ℤ◌}
use quantoxide.Prelude.Machine.{i64_checked, i64_checked-eq-some}
use quantoxide.Sdk.{CrossExposure, Sdk, neutral, running}
use quantoxide.Sdk.Laws.{ExposureLaws}
use quantoxide.Trade.Cross.{
  SimulatedCrossPosition, coherent_exposure, cross_close, cross_new, est_free_margin, is_coherent,
}
use quantoxide.Trade.Cross.Accounting.{cross_new-eq-ok}
use quantoxide.Trade.Cross.Funding.{
  cross_funding_settlement, force_close, margin_after_fee, settle_on, settle_running, settle_with,
}
use quantoxide.Trade.Error.{
  SimulatedTradeExecutorError, cross_exposure_validation, cross_position_overflow,
}

module _ ⦃sdk : Sdk⦄ where
  open sdk use {
    F64, Price, price_bounded, PercentageCapped, CrossExposureRunning, as_running_params,
  }

  -- The position that a settlement gives, the fee it reports and whether it was forced flat.
  abbrev pub Settlement : Type 0
  Settlement = SimulatedCrossPosition × ℤ × Bool

  -- A forced settlement leaves no exposure, any other a coherent position.
  abbrev pub IsSound : Price → Settlement → Type 0
  IsSound price (p, fee, forced) =
      ((forced ≡ true) × (p.exposure ≡ neutral)) ⊎ ((forced ≡ false) × (is_coherent p price ≡ true))

  -- The session's funding fees have grown by the fee.
  abbrev pub IsSettled : SimulatedCrossPosition → Price → Settlement → Type 0
  IsSettled p price r = (r.0.session_funding_fees ≡ p.session_funding_fees +ℤ r.1) × IsSound price r

  neutral-IsCoherent :
      (p : SimulatedCrossPosition) (price : Price)
      → p.exposure ≡ neutral
      → is_coherent p price ≡ true
  unfolding is_coherent coherent_exposure
  neutral-IsCoherent p price e = ap (λ x. coherent_exposure x price (est_free_margin p price)) e

  module _ (laws : ExposureLaws) where
    force_close-IsSettled :
        (p : SimulatedCrossPosition) (price : Price) (perc : PercentageCapped) (fee sum : ℤ)
        (r : Settlement)
        → sum ≡ p.session_funding_fees +ℤ fee
        → force_close p price perc fee sum ≡ ok r
        → IsSettled p price r
    unfolding force_close
    force_close-IsSettled p price perc fee sum r e h =
        split_bind (cross_close p price perc) _ h λ closed h1 k1.
          split_bind (margin_after_fee closed.margin fee) _ k1 λ m h2 k2.
            split_bind (cross_new m closed.leverage none closed.trading_fees sum closed.realized_pl)
              _ k2
              λ final h3 k3.
                let facts =
                  cross_new-eq-ok m closed.leverage none closed.trading_fees sum closed.realized_pl
                    h3 in
                subst (IsSettled p price) (ok_inj k3) (
                  facts.4 ∙ e,
                  inl (refl, sym (ok_inj (sym (laws.new_neutral m closed.leverage) ∙ facts.0))),
                )

    settle_with-IsSettled :
        (o : Result SimulatedCrossPosition SimulatedTradeExecutorError) (p : SimulatedCrossPosition)
        (price : Price) (perc : PercentageCapped) (fee sum : ℤ) (r : Settlement)
        → sum ≡ p.session_funding_fees +ℤ fee
        → ((q : SimulatedCrossPosition) → o ≡ ok q → q.session_funding_fees ≡ sum)
        → settle_with o p price perc fee sum ≡ ok r
        → IsSettled p price r
    unfolding settle_with
    settle_with-IsSettled (ok q) p price perc fee sum r e n h =
        elim (Bool-cases (is_coherent q price)) [
          | inl good ↦
              subst (IsSettled p price) (ok_inj (rw good at h)) (n q refl ∙ e, inr (refl, good))
          | inr bad ↦ force_close-IsSettled p price perc fee sum r e (rw bad at h)
        ]
    settle_with-IsSettled (err (cross_exposure_validation v)) p price perc fee sum r e n h =
        force_close-IsSettled p price perc fee sum r e h
    settle_with-IsSettled (err _) p price perc fee sum r e n h = err_absurd h

    settle_running-IsSettled :
        (p : SimulatedCrossPosition) (price : Price) (perc : PercentageCapped) (fee : ℤ)
        (r : Settlement)
        → settle_running p price perc fee ≡ ok r
        → IsSettled p price r
    unfolding settle_running
    settle_running-IsSettled p price perc fee r h =
        split_ok_or (i64_checked (p.session_funding_fees +ℤ fee)) cross_position_overflow _ h
          λ sum h1 k1.
            let e = i64_checked-eq-some _ h1 in
            elim (Bool-cases (ltb_ℤ (pos 0) fee && leb (est_free_margin p price) (pos_part fee))) [
              | inl broke ↦ force_close-IsSettled p price perc fee sum r e (rw broke at k1)
              | inr solvent ↦
                  split_bind (margin_after_fee p.margin fee) _ (rw solvent at k1) λ m h2 k2.
                    settle_with-IsSettled
                      (cross_new m p.leverage (as_running_params p.exposure) p.trading_fees sum
                        p.realized_pl)
                      p price perc fee sum r e
                      (λ q n.
                        (cross_new-eq-ok m p.leverage (as_running_params p.exposure) p.trading_fees
                          sum p.realized_pl n).4)
                      k2
            ]

    settle_on-IsSettled :
        (x : CrossExposure CrossExposureRunning) (p : SimulatedCrossPosition) (market_price : F64)
        (row : FundingSettlementRow) (perc : PercentageCapped) (r : Settlement)
        → p.exposure ≡ x
        → settle_on x p market_price row perc ≡ ok r
        → IsSettled p (price_bounded market_price) r
    unfolding settle_on
    settle_on-IsSettled neutral p market_price row perc r e h =
        subst (IsSettled p (price_bounded market_price)) (ok_inj h)
          (omega (int_laws), inr (refl, neutral-IsCoherent p (price_bounded market_price) e))
    settle_on-IsSettled (running x) p market_price row perc r e h =
        settle_running-IsSettled p (price_bounded market_price) perc _ r h

    -- Given what the crate promises of exposures: a funding settlement that succeeds adds the fee it
    -- reports to the session's funding fees; if it was forced it leaves no exposure, and if not, the
    -- position it leaves is coherent at the market price.
    pub cross_funding_settlement-IsSettled :
        (p : SimulatedCrossPosition) (market_price : F64) (row : FundingSettlementRow)
        (perc : PercentageCapped) (r : Settlement)
        → cross_funding_settlement p market_price row perc ≡ ok r
        → IsSettled p (price_bounded market_price) r
    unfolding cross_funding_settlement
    cross_funding_settlement-IsSettled p market_price row perc r h =
        settle_on-IsSettled p.exposure p market_price row perc r refl h
