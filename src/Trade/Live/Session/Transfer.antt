-- ===== src/Trade/Live/Session/Transfer.antt =====
-- Deposits to and withdrawals from the live cross account.
use quantoxide.Prelude.{Option-cases, Result-cases, arith, err, inl, inr, ok, refl, ℕ, ◌+◌, ◌≡◌}
use quantoxide.Prelude.Machine.{
  u64_checked, u64_checked-eq-some, u64_checked_sub, u64_checked_sub-eq-some,
}
use quantoxide.Sdk.{Sdk}
use quantoxide.Trade.Live.{LiveSdk}
use quantoxide.Trade.Live.CrossPosition.{update_from_raw}
use quantoxide.Trade.Live.CrossPosition.Books.{TakesOver, update_from_raw-TakesOver}
use quantoxide.Trade.Live.Session.{
  LiveTradingSession, SessionOutcome, apply_cross_deposit, apply_cross_withdraw, deposit_to,
  replace_cross_position, replace_with, set_balance, withdraw_to,
}

module _ ⦃sdk : Sdk⦄ ⦃live : LiveSdk⦄ where
  open live use {CrossPosition}

  -- The session changes in its balance and its cross position only.
  abbrev SameButCross : LiveTradingSession → LiveTradingSession → Type 0
  SameButCross s s' = s' ≡ record s { balance = s'.balance; cross_position = s'.cross_position }

  module _ (s : LiveTradingSession) (amount : ℕ) (raw : CrossPosition) where
    -- With an error nothing has changed.
    abbrev pub DepositEnds : SessionOutcome → Type 0
    DepositEnds (s', ok u) =
        (s'.balance + amount ≡ s.balance)
        × TakesOver s.cross_position raw s'.cross_position
        × SameButCross s s'
    DepositEnds (s', err e) = s' ≡ s

    abbrev pub WithdrawEnds : SessionOutcome → Type 0
    WithdrawEnds (s', ok u) =
        (s'.balance ≡ s.balance + amount)
        × TakesOver s.cross_position raw s'.cross_position
        × SameButCross s s'
    WithdrawEnds (s', err e) = s' ≡ s

    apply_cross_deposit-DepositEnds : DepositEnds (apply_cross_deposit s amount raw)
    unfolding apply_cross_deposit deposit_to replace_cross_position replace_with set_balance
    apply_cross_deposit-DepositEnds = elim (Option-cases (u64_checked_sub s.balance amount)) [
      | inl e ↦ rw e refl
      | inr (left, e) ↦ elim (Result-cases (update_from_raw s.cross_position raw)) [
        | inl (p, f) ↦
            let bound = u64_checked_sub-eq-some s.balance amount e in
            rw (e, f)
              (
                omega (arith, bound.0, bound.1),
                update_from_raw-TakesOver s.cross_position raw p f,
                refl,
              )
        | inr (x, f) ↦ rw (e, f) refl
      ]
    ]

    apply_cross_withdraw-WithdrawEnds : WithdrawEnds (apply_cross_withdraw s amount raw)
    unfolding apply_cross_withdraw withdraw_to replace_cross_position replace_with set_balance
    apply_cross_withdraw-WithdrawEnds = elim (Option-cases (u64_checked (s.balance + amount))) [
      | inl e ↦ rw e refl
      | inr (sum, e) ↦ elim (Result-cases (update_from_raw s.cross_position raw)) [
        | inl (p, f) ↦
            rw (e, f)
              (
                (u64_checked-eq-some (s.balance + amount) e).0,
                update_from_raw-TakesOver s.cross_position raw p f,
                refl,
              )
        | inr (x, f) ↦ rw (e, f) refl
      ]
    ]

    -- A deposit takes its amount from the balance and a withdrawal adds it; each takes over the
    -- position that the server reports, its id, margin, leverage, exposure and fees, keeps the realized
    -- profit and what the session began with, and changes nothing else, or fails and changes nothing.
    pub cross_transfers_end :
        DepositEnds (apply_cross_deposit s amount raw)
        × WithdrawEnds (apply_cross_withdraw s amount raw)
    cross_transfers_end = (apply_cross_deposit-DepositEnds, apply_cross_withdraw-WithdrawEnds)
