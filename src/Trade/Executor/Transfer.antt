-- ===== src/Trade/Executor/Transfer.antt =====
-- Moving money between the balance and the cross margin.
use quantoxide.Prelude.{
  Bool-cases, Result, ap, arith, err, err_absurd, false, guard_passed, if◌then◌else◌, inl, inr, ok,
  ok_inj, split_bind, split_map_err, split_ok_or, subst, sym, true, ℕ, ◌+◌, ◌-◌, ◌<◌, ◌∙◌, ◌≡◌, ◌≤◌,
}
use quantoxide.Prelude.Int.{int_laws, ltb_ℤ, neg_part, pos, pos_part, ℤ, ◌+ℤ◌, ◌-ℤ◌, ◌≤ℤ◌}
use quantoxide.Prelude.Machine.{
  i64_checked, i64_checked-eq-some, i64_half, i64_sub, i64_try_from, i64_try_from-eq-some,
  u64_checked, u64_checked-eq-some, wrap-bounds, wrap-mod,
}
use quantoxide.Sdk.{Sdk}
use quantoxide.Trade.Cross.{
  SimulatedCrossPosition, cross_new, est_free_margin, is_coherent, with_margin,
}
use quantoxide.Trade.Error.{
  SimulatedTradeExecutorError, balance_too_low, cross_exposure_validation,
  cross_free_margin_too_low, cross_position_overflow,
}
use quantoxide.Trade.Executor.{SimulatedTradeExecutorState, commit}
use quantoxide.Trade.Executor.CrossAccount.{
  coherent_only, cross_deposit, cross_withdraw, exceeds_free_margin,
}

module _ ⦃sdk : Sdk⦄ where
  open sdk use {Price, price_bounded, cross_exposure_new, as_running_params}

  -- What the balance and the cross margin hold together.
  pub total_funds : SimulatedTradeExecutorState → ℤ
  total_funds s = s.balance +ℤ pos s.cross_position.margin

  commit-ok :
      {A : Type 0} (s : SimulatedTradeExecutorState)
      (m : Result (SimulatedTradeExecutorState × A) SimulatedTradeExecutorError)
      (r : SimulatedTradeExecutorState) (a : A)
      → commit s m ≡ (r, ok a)
      → m ≡ ok (r, a)
  commit-ok s (ok (x, y)) r a h =
      let state = ap (λ o. o.0) h in let value = ok_inj (ap (λ o. o.1) h) in cc
  commit-ok s (err e) r a h = err_absurd (ap (λ o. o.1) h)

  with_margin-margin :
      (p moved : SimulatedCrossPosition) (m : ℕ) → with_margin p m ≡ ok moved → moved.margin ≡ m
  unfolding with_margin cross_new
  with_margin-margin p moved m h =
      split_map_err cross_exposure_validation
        (cross_exposure_new m p.leverage (as_running_params p.exposure)) _ h
        λ e h1 k1. ap (λ x. x.margin) (sym (ok_inj k1))

  coherent_only-ok :
      (price : Price) (p q : SimulatedCrossPosition)
      → coherent_only price p ≡ ok q
      → (p ≡ q) × (is_coherent q price ≡ true)
  unfolding coherent_only
  coherent_only-ok price p q h = elim (Bool-cases (is_coherent p price)) [
    | inl e ↦
        let same = ok_inj (rw e at h) in (same, subst (λ x. is_coherent x price ≡ true) same e)
    | inr e ↦ err_absurd (rw e at h)
  ]

  -- The result of moving an amount: the total is unchanged, the cross position is the one returned
  -- and is coherent at the market price.
  abbrev pub IsTransfer :
      SimulatedTradeExecutorState → SimulatedTradeExecutorState → SimulatedCrossPosition → Type 0
  IsTransfer s r p =
      (total_funds r ≡ total_funds s)
      × (r.cross_position ≡ p)
      × (is_coherent p (price_bounded s.market_price) ≡ true)

  abbrev IsI64 : ℤ → Type 0
  IsI64 z = (pos_part z < i64_half) × (neg_part z ≤ i64_half)

  le_of_ltb : (a b : ℤ) → ltb_ℤ a b ≡ false → b ≤ℤ a
  le_of_ltb a b h = ground arith

  deposit_balance :
      (balance a : ℤ) (amount margin m : ℕ)
      → IsI64 balance
      → a ≡ pos amount
      → ltb_ℤ balance a ≡ false
      → m ≡ margin + amount
      → i64_sub balance a +ℤ pos m ≡ balance +ℤ pos margin
  deposit_balance balance a amount margin m b e le f = omega (
    int_laws,
    ap pos_part e,
    ap neg_part e,
    le_of_ltb balance a le,
    wrap-bounds (balance -ℤ a),
    wrap-mod (balance -ℤ a),
  )

  moved_state :
      (s r : SimulatedTradeExecutorState) (p moved q : SimulatedCrossPosition) (balance : ℤ) (m : ℕ)
      → with_margin s.cross_position m ≡ ok moved
      → coherent_only (price_bounded s.market_price) moved ≡ ok q
      → ◌≡◌
          {A = Result
            (SimulatedTradeExecutorState × SimulatedCrossPosition)
            SimulatedTradeExecutorError}
          (ok (record s { balance = balance; cross_position = q }, q))
          (ok (r, p))
      → balance +ℤ pos m ≡ total_funds s
      → IsTransfer s r p
  unfolding total_funds
  moved_state s r p moved q balance m hm hc h t =
      let state = ap (λ o. o.0) (ok_inj h) in
      let returned = ap (λ o. o.1) (ok_inj h) in
      let c = coherent_only-ok (price_bounded s.market_price) moved q hc in
      let margin = ap (λ x. x.margin) (sym c.0) ∙ with_margin-margin s.cross_position moved m hm in
      (
        ap (λ x. x.balance +ℤ pos x.cross_position.margin) (sym state)
            ∙ ap (λ n. balance +ℤ pos n) margin
            ∙ t,
        ap (λ x. x.cross_position) (sym state) ∙ returned,
        subst (λ x. is_coherent x (price_bounded s.market_price) ≡ true) returned c.1,
      )

  withdraw_balance :
      (balance after a : ℤ) (amount margin : ℕ)
      → amount ≤ margin
      → a ≡ pos amount
      → after ≡ balance +ℤ a
      → after +ℤ pos (margin - amount) ≡ balance +ℤ pos margin
  withdraw_balance balance after a amount margin le e f =
      omega (int_laws, ap pos_part e, ap neg_part e, ap pos_part f, ap neg_part f)

  covered_amount :
      (p : SimulatedCrossPosition) (price : Price) (amount : ℕ)
      → exceeds_free_margin p (est_free_margin p price) amount ≡ false
      → amount ≤ p.margin
  unfolding est_free_margin exceeds_free_margin
  covered_amount p price amount h = ground arith

  -- A cross deposit that succeeds, from a balance that is an i64, leaves the sum of balance and cross
  -- margin as it was, stores the position it returns, and that position is coherent at the market
  -- price.
  pub cross_deposit-IsTransfer :
      (s r : SimulatedTradeExecutorState) (p : SimulatedCrossPosition) (amount : ℕ)
      → IsI64 s.balance
      → cross_deposit s amount ≡ (r, ok p)
      → IsTransfer s r p
  unfolding cross_deposit total_funds
  cross_deposit-IsTransfer s r p amount b h =
      split_ok_or (i64_try_from amount) cross_position_overflow _ (commit-ok s _ r p h) λ a e1 k1.
        split_bind (if ltb_ℤ s.balance a then err balance_too_low else ok (tt {0})) _ k1 λ u e2 k2.
          split_ok_or (u64_checked (s.cross_position.margin + amount)) cross_position_overflow _ k2
            λ m e3 k3. split_bind (with_margin s.cross_position m) _ k3 λ moved e4 k4.
              split_bind (coherent_only (price_bounded s.market_price) moved) _ k4 λ q e5 k5.
                moved_state s r p moved q _ m e4 e5 k5 (
                  deposit_balance s.balance a amount s.cross_position.margin m b
                    (i64_try_from-eq-some amount e1) (guard_passed (ltb_ℤ s.balance a) _ _ e2)
                    (u64_checked-eq-some _ e3).0)

  -- A cross withdrawal that succeeds takes no more than the cross margin, leaves the sum of balance
  -- and cross margin as it was, stores the position it returns, and that position is coherent at the
  -- market price.
  pub cross_withdraw-IsTransfer :
      (s r : SimulatedTradeExecutorState) (p : SimulatedCrossPosition) (amount : ℕ)
      → cross_withdraw s amount ≡ (r, ok p)
      → IsTransfer s r p × (amount ≤ s.cross_position.margin)
  unfolding cross_withdraw total_funds
  cross_withdraw-IsTransfer s r p amount h =
      let price = price_bounded s.market_price in
      let free = est_free_margin s.cross_position price in
      split_ok_or (i64_try_from amount) cross_position_overflow _ (commit-ok s _ r p h) λ a e1 k1.
        split_bind
          (if exceeds_free_margin s.cross_position free amount
            then err cross_free_margin_too_low
            else ok (tt {0}))
          _ k1
          λ u e2 k2.
            split_ok_or (i64_checked (s.balance +ℤ a)) cross_position_overflow _ k2 λ balance e3 k3.
              split_bind (with_margin s.cross_position (s.cross_position.margin - amount)) _ k3
                λ moved e4 k4. split_bind (coherent_only price moved) _ k4 λ q e5 k5.
                  let covered : amount ≤ s.cross_position.margin =
                    covered_amount s.cross_position price amount
                      (guard_passed (exceeds_free_margin s.cross_position free amount) _ _ e2) in
                  (
                    moved_state s r p moved q balance _ e4 e5 k5 (
                        withdraw_balance s.balance balance a amount s.cross_position.margin covered
                          (i64_try_from-eq-some amount e1) (i64_checked-eq-some _ e3)),
                    covered,
                  )
