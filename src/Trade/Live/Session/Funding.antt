-- ===== src/Trade/Live/Session/Funding.antt =====
-- The funding fees of a trade that a new session takes over.
use quantoxide.Prelude.{
  Bool-cases, List, Option, Result, err, err_absurd, false, inl, inr, ok, ok_inj, some, subst, ℕ,
  ◌≡◌,
}
use quantoxide.Prelude.Int.{int_laws, ℤ, ◌+ℤ◌, ◌-ℤ◌}
use quantoxide.Prelude.Machine.{i64_add, i64_sub, wrap-bounds, wrap-mod, wrap_i64}
use quantoxide.Prelude.Maps.{hash_get, hash_get-insert_same}
use quantoxide.Sdk.{Sdk}
use quantoxide.Trade.Error.{TradeCoreError}
use quantoxide.Trade.Live.{LiveSdk}
use quantoxide.Trade.Live.Session.{
  LiveTradingSession, contains_live, note_trade, register_running_trade, register_with,
}
use quantoxide.Trade.Live.Session.Start.{less_baseline, only_ok}
use quantoxide.Trade.Stoploss.{TradeTrailingStoploss}
use quantoxide.Trade.Trigger.{PriceTrigger}

-- Taking off a baseline and adding a sum adds what came since the baseline.
since_baseline : (f b n : ℤ) → i64_add (i64_sub f b) n ≡ i64_add f (i64_sub n b)
since_baseline f b n = omega (
  int_laws,
  wrap-bounds (wrap_i64 (f -ℤ b) +ℤ n),
  wrap-mod (wrap_i64 (f -ℤ b) +ℤ n),
  wrap-bounds (f +ℤ wrap_i64 (n -ℤ b)),
  wrap-mod (f +ℤ wrap_i64 (n -ℤ b)),
  wrap-mod (f -ℤ b),
  wrap-mod (n -ℤ b),
)

module _ ⦃sdk : Sdk⦄ ⦃live : LiveSdk⦄ where
  open live use {Trade, trade_id, trade_running, trade_sum_funding_fees}

  -- The fees that came since the baseline are booked, and the whole sum is the next baseline.
  abbrev pub IsTakenOver : LiveTradingSession → Trade → ℤ → LiveTradingSession → Type 0
  IsTakenOver s t baseline s' =
      (s'.funding_fees ≡ i64_add s.funding_fees (i64_sub (trade_sum_funding_fees t) baseline))
      × (hash_get (trade_id t) s'.funding_snapshot ≡ some (trade_sum_funding_fees t))

  module _ (s : LiveTradingSession) (t : Trade) (tsl : Option TradeTrailingStoploss)
      (snapshot : List (ℕ × ℤ)) (baseline : ℤ) where
    register_with-IsTakenOver :
        (r : Result PriceTrigger TradeCoreError) (s' : LiveTradingSession)
        → hash_get (trade_id t) snapshot ≡ some baseline
        → only_ok (register_with (note_trade (less_baseline snapshot s t) t false) t tsl r) ≡ ok s'
        → IsTakenOver s t baseline s'
    unfolding register_with note_trade less_baseline
    register_with-IsTakenOver (err e) s' k h = err_absurd h
    register_with-IsTakenOver (ok g) s' k h = subst (IsTakenOver s t baseline) (ok_inj h) (
      rw k (since_baseline s.funding_fees baseline (trade_sum_funding_fees t)),
      hash_get-insert_same (trade_id t) (trade_sum_funding_fees t) s.funding_snapshot,
    )

    -- A trade that a new session takes over, and that the session before had seen with some funding
    -- fees, adds to the session's funding fees what came since then, and leaves its sum as the next
    -- baseline.
    pub register_running_trade-IsTakenOver :
        (s' : LiveTradingSession)
        → hash_get (trade_id t) snapshot ≡ some baseline
        → only_ok (register_running_trade (less_baseline snapshot s t) t tsl false) ≡ ok s'
        → IsTakenOver s t baseline s'
    unfolding register_running_trade less_baseline
    register_running_trade-IsTakenOver s' k h = elim (Bool-cases (trade_running t)) [
      | inr e ↦ err_absurd (rw e at h)
      | inl e ↦ elim (Bool-cases (contains_live s.running_map (trade_id t))) [
        | inl f ↦ err_absurd (rw (e, f) at h)
        | inr f ↦ register_with-IsTakenOver _ s' k (rw (e, f) at h)
      ]
    ]
