-- ===== src/Trade/Live/CrossPosition/Books.antt =====
-- The books of a live cross position.
use quantoxide.Prelude.{
  Bool-cases, arith, err_absurd, inl, inr, ltb, ok, ok_inj, ok_or-eq-ok, refl, split_bind,
  split_map_err, split_ok_or, subst, ℕ, ◌+◌, ◌-◌, ◌≡◌, ◌≤◌,
}
use quantoxide.Prelude.Int.{int_laws, pos, ℤ, ◌+ℤ◌, ◌-ℤ◌}
use quantoxide.Prelude.Machine.{
  i64_checked, i64_checked-eq-some, i64_try_from, i64_try_from-eq-some, u64_checked_sub,
  u64_checked_sub-eq-some,
}
use quantoxide.Sdk.{CrossExposure, Sdk}
use quantoxide.Trade.Live.{
  LiveSdk, live_position_overflow, live_position_validation, trading_fees_decreased,
}
use quantoxide.Trade.Live.CrossPosition.{
  LiveCrossPosition, live_trading_fees, realized_by_order, update_after_order, update_from_raw,
  updated,
}

-- The changes of margin, trading fees and funding fees add up.
sum_of_changes :
    (m m' t t' : ℕ) (f f' nm pm md fd gd wf d : ℤ) (fu : ℕ)
    → nm ≡ pos m
    → pm ≡ pos m'
    → md ≡ nm -ℤ pm
    → (t' ≤ t) × (fu ≡ t - t')
    → fd ≡ pos fu
    → gd ≡ f -ℤ f'
    → wf ≡ md +ℤ fd
    → d ≡ wf +ℤ gd
    → pos (m + t) +ℤ f ≡ (pos (m' + t') +ℤ f') +ℤ d
sum_of_changes m m' t t' f f' nm pm md fd gd wf d fu h1 h2 h3 h4 h5 h6 h7 h8 =
    rw (h8, h7, h6, h5, h3, h2, h1, h4.1) omega (int_laws, h4.0)

less_realized : (a b r d pl : ℤ) → a ≡ b +ℤ d → pl ≡ r +ℤ d → a -ℤ pl ≡ b -ℤ r
less_realized a b r d pl h k = rw (h, k) omega int_laws

module _ ⦃sdk : Sdk⦄ ⦃live : LiveSdk⦄ where
  open sdk use {CrossExposureRunning}
  open live use {
    CrossPosition, position_id, position_margin, position_leverage, position_exposure,
    position_funding_fees, position_trading_fees,
  }

  -- What the account has put in: the margin, with the fees that were paid, less what was realized.
  abbrev pub put_in : LiveCrossPosition → ℤ
  put_in p = ((pos (p.margin + p.curr_trading_fees)) +ℤ p.curr_funding_fees) -ℤ p.realized_pl

  -- The new position is the one that the server reports, the session began where it did before, and
  -- the fees have not fallen.
  pub record IsUpdateOf (p : LiveCrossPosition) (raw : CrossPosition) (q : LiveCrossPosition)
      : Type 0 where
    pub reported : position_exposure raw ≡ ok q.exposure
    pub same_start : q.start_trading_fees ≡ p.start_trading_fees
    pub fees_kept : live_trading_fees p ≤ live_trading_fees q

  realized_by_order-balances :
      (p : LiveCrossPosition) (raw : CrossPosition) (d : ℤ)
      → realized_by_order p raw ≡ ok d
      → ((pos (position_margin raw + position_trading_fees raw)) +ℤ position_funding_fees raw)
        ≡ ((pos (p.margin + p.curr_trading_fees)) +ℤ p.curr_funding_fees) +ℤ d
  unfolding realized_by_order
  realized_by_order-balances p raw d h =
      split_ok_or (i64_try_from (position_margin raw)) live_position_overflow _ h λ nm h1 k1.
        split_ok_or (i64_try_from p.margin) live_position_overflow _ k1 λ pm h2 k2.
          split_ok_or (i64_checked (nm -ℤ pm)) live_position_overflow _ k2 λ md h3 k3.
            split_ok_or (u64_checked_sub (position_trading_fees raw) p.curr_trading_fees)
              (trading_fees_decreased p.curr_trading_fees (position_trading_fees raw)) _ k3
              λ fu h4 k4. split_ok_or (i64_try_from fu) live_position_overflow _ k4 λ fd h5 k5.
                split_ok_or (i64_checked (position_funding_fees raw -ℤ p.curr_funding_fees))
                  live_position_overflow _ k5
                  λ gd h6 k6.
                    split_ok_or (i64_checked (md +ℤ fd)) live_position_overflow _ k6 λ wf h7 k7.
                      sum_of_changes (position_margin raw) p.margin (position_trading_fees raw)
                        p.curr_trading_fees (position_funding_fees raw) p.curr_funding_fees nm pm md
                        fd gd wf d fu (i64_try_from-eq-some _ h1) (i64_try_from-eq-some _ h2)
                        (i64_checked-eq-some _ h3) (u64_checked_sub-eq-some _ _ h4)
                        (i64_try_from-eq-some _ h5) (i64_checked-eq-some _ h6)
                        (i64_checked-eq-some _ h7) (i64_checked-eq-some _ (ok_or-eq-ok _ _ k7))

  realized_by_order-fees :
      (p : LiveCrossPosition) (raw : CrossPosition) (d : ℤ)
      → realized_by_order p raw ≡ ok d
      → p.curr_trading_fees ≤ position_trading_fees raw
  unfolding realized_by_order
  realized_by_order-fees p raw d h =
      split_ok_or (i64_try_from (position_margin raw)) live_position_overflow _ h λ nm h1 k1.
        split_ok_or (i64_try_from p.margin) live_position_overflow _ k1 λ pm h2 k2.
          split_ok_or (i64_checked (nm -ℤ pm)) live_position_overflow _ k2 λ md h3 k3.
            split_ok_or (u64_checked_sub (position_trading_fees raw) p.curr_trading_fees)
              (trading_fees_decreased p.curr_trading_fees (position_trading_fees raw)) _ k3
              λ fu h4 k4. (u64_checked_sub-eq-some _ _ h4).0

  updated-IsUpdateOf :
      (p : LiveCrossPosition) (raw : CrossPosition) (e : CrossExposure CrossExposureRunning)
      (pl : ℤ)
      → position_exposure raw ≡ ok e
      → p.curr_trading_fees ≤ position_trading_fees raw
      → IsUpdateOf p raw (updated p raw e pl)
  unfolding live_trading_fees
  updated-IsUpdateOf p raw e pl h k = record {
    reported = h;
    same_start = refl;
    fees_kept = omega (arith, k);
  }

  -- An order that is registered changes no more than it books: margin plus trading fees plus funding
  -- fees less the realized profit stay what they were, the exposure is the one that is reported, and
  -- the trading fees of the session do not fall.
  pub update_after_order-balances :
      (p : LiveCrossPosition) (raw : CrossPosition) (q : LiveCrossPosition)
      → update_after_order p raw ≡ ok q
      → (put_in q ≡ put_in p) × IsUpdateOf p raw q
  unfolding update_after_order
  update_after_order-balances p raw q h = split_bind (realized_by_order p raw) _ h λ d h1 k1.
      split_ok_or (i64_checked (p.realized_pl +ℤ d)) live_position_overflow _ k1 λ pl h2 k2.
        split_map_err live_position_validation (position_exposure raw) _ k2 λ e h3 k3.
          subst (λ x. (put_in x ≡ put_in p) × IsUpdateOf p raw x) (ok_inj k3)
            (
              less_realized _ _ p.realized_pl d pl (realized_by_order-balances p raw d h1)
                  (i64_checked-eq-some _ h2),
              updated-IsUpdateOf p raw e pl h3 (realized_by_order-fees p raw d h1),
            )

  -- What a report of the server leaves of a position: all that is reported, with the realized profit
  -- and the fees the session began with as they were, and trading fees that have not fallen.
  pub record TakesOver (p : LiveCrossPosition) (raw : CrossPosition) (q : LiveCrossPosition)
      : Type 0 where
    pub same_id : q.id ≡ position_id raw
    pub same_margin : q.margin ≡ position_margin raw
    pub same_leverage : q.leverage ≡ position_leverage raw
    pub same_exposure : position_exposure raw ≡ ok q.exposure
    pub same_funding_fees : q.curr_funding_fees ≡ position_funding_fees raw
    pub same_trading_fees : q.curr_trading_fees ≡ position_trading_fees raw
    pub not_lower : p.curr_trading_fees ≤ q.curr_trading_fees
    pub same_realized_pl : q.realized_pl ≡ p.realized_pl
    pub same_funding_start : q.start_funding_fees ≡ p.start_funding_fees
    pub same_trading_start : q.start_trading_fees ≡ p.start_trading_fees

  pub update_from_raw-TakesOver :
      (p : LiveCrossPosition) (raw : CrossPosition) (q : LiveCrossPosition)
      → update_from_raw p raw ≡ ok q
      → TakesOver p raw q
  unfolding update_from_raw
  update_from_raw-TakesOver p raw q h =
      split_map_err live_position_validation (position_exposure raw) _ h λ e h1 k1.
        elim (Bool-cases (ltb (position_trading_fees raw) p.curr_trading_fees)) [
          | inl f ↦ err_absurd (rw f at k1)
          | inr f ↦ subst (TakesOver p raw) (ok_inj (rw f at k1)) record {
            same_id = refl;
            same_margin = refl;
            same_leverage = refl;
            same_exposure = h1;
            same_funding_fees = refl;
            same_trading_fees = refl;
            not_lower = ground arith;
            same_realized_pl = refl;
            same_funding_start = refl;
            same_trading_start = refl;
          }
        ]
