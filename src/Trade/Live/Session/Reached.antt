-- ===== src/Trade/Live/Session/Reached.antt =====
-- A live session through any sequence of its operations, those that fail included.
use quantoxide.Prelude.{
  Bool, Bool-cases, List, Option, Result, err, inl, inr, none, not, ok, some, ℕ, ◌&&◌,
}
use quantoxide.Sdk.{Sdk}
use quantoxide.Sdk.Laws.{PriceLaws}
use quantoxide.Time.{DateTime}
use quantoxide.Trade.Live.{ExecutorActionError, LiveSdk}
use quantoxide.Trade.Live.CrossPosition.{liquidation_was_reached, update_from_raw}
use quantoxide.Trade.Live.Session.{
  LiveTradingSession, SessionOutcome, apply_cross_deposit, apply_cross_withdraw, deposit_to, expire,
  is_expired, register_cross_order, register_running_trade, replace_cross_position, withdraw_to,
}
use quantoxide.Trade.Live.Session.Close.{close_session_trades}
use quantoxide.Trade.Live.Session.Reevaluate.{
  Answers, apply_requested, check_trades, close_updated, reevaluate, reevaluate_in,
  refresh_if_liquidated, refreshed, with_closed,
}
use quantoxide.Trade.Live.Session.TriggerKept.{
  SessionCovers, close_session_trades-SessionCovers, register_running_trade-SessionCovers,
  replace_with-SessionCovers, set_balance-SessionCovers, update_running_trades-SessionCovers,
}
use quantoxide.Trade.Live.Session.Update.{update_running_trades}
use quantoxide.Trade.Stoploss.{TradeTrailingStoploss}
use quantoxide.Trade.Trigger.{was_reached}

module _ ⦃sdk : Sdk⦄ ⦃live : LiveSdk⦄ where
  open sdk use {F64}
  open live use {CrossOrder, CrossPosition, Trade}

  pub data SessionStep : LiveTradingSession → LiveTradingSession → Type 0 where
    registers :
        (s : LiveTradingSession) (t : Trade) (tsl : Option TradeTrailingStoploss)
        (update_balance : Bool)
        → SessionStep s (register_running_trade s t tsl update_balance).0
    updates :
        (s : LiveTradingSession) (updated_trades : List (ℕ × Trade))
        → SessionStep s (update_running_trades s updated_trades).0
    closes :
        (s : LiveTradingSession) (closed_trades : List Trade)
        → SessionStep s (close_session_trades s closed_trades).0
    replaces :
        (s : LiveTradingSession) (raw : CrossPosition)
        → SessionStep s (replace_cross_position s raw).0
    deposits :
        (s : LiveTradingSession) (amount : ℕ) (raw : CrossPosition)
        → SessionStep s (apply_cross_deposit s amount raw).0
    withdraws :
        (s : LiveTradingSession) (amount : ℕ) (raw : CrossPosition)
        → SessionStep s (apply_cross_withdraw s amount raw).0
    orders :
        (s : LiveTradingSession) (raw : CrossPosition) (order : CrossOrder)
        → SessionStep s (register_cross_order s raw order).0
    reevaluates :
        (s : LiveTradingSession) (answers : Answers) → SessionStep s (reevaluate s answers).0
    expires :
        (s : LiveTradingSession) (now then_now : DateTime) → SessionStep s (expire s now then_now)

  pub data SessionReach (s : LiveTradingSession) : LiveTradingSession → Type 0 where
    begins : SessionReach s s
    steps : {t u : LiveTradingSession} → SessionReach s t → SessionStep t u → SessionReach s u

  module _ (laws : PriceLaws) where
    deposit_to-SessionCovers :
        (s : LiveTradingSession) (raw : CrossPosition) (o : Option ℕ)
        → SessionCovers s
        → SessionCovers (deposit_to s raw o).0
    unfolding deposit_to replace_cross_position
    deposit_to-SessionCovers s raw none c = c
    deposit_to-SessionCovers s raw (some b) c =
        set_balance-SessionCovers laws b (replace_cross_position s raw)
          (replace_with-SessionCovers laws s (update_from_raw s.cross_position raw) c)

    withdraw_to-SessionCovers :
        (s : LiveTradingSession) (raw : CrossPosition) (o : Option ℕ)
        → SessionCovers s
        → SessionCovers (withdraw_to s raw o).0
    unfolding withdraw_to replace_cross_position
    withdraw_to-SessionCovers s raw none c = c
    withdraw_to-SessionCovers s raw (some b) c =
        set_balance-SessionCovers laws b (replace_cross_position s raw)
          (replace_with-SessionCovers laws s (update_from_raw s.cross_position raw) c)

    with_closed-SessionCovers :
        (ts : List Trade) (r : SessionOutcome)
        → SessionCovers r.0
        → SessionCovers (with_closed ts r).0
    with_closed-SessionCovers ts (s, ok u) c = c
    with_closed-SessionCovers ts (s, err e) c = c

    close_updated-SessionCovers :
        (ts : List Trade) (r : SessionOutcome)
        → SessionCovers r.0
        → SessionCovers (close_updated ts r).0
    close_updated-SessionCovers ts (s, err e) c = c
    close_updated-SessionCovers ts (s, ok u) c =
        with_closed-SessionCovers ts (close_session_trades s ts)
          (close_session_trades-SessionCovers laws s ts c)

    apply_requested-SessionCovers :
        (s : LiveTradingSession) (r : Result (List Trade × List (ℕ × Trade)) ExecutorActionError)
        → SessionCovers s
        → SessionCovers (apply_requested s r).0
    unfolding apply_requested
    apply_requested-SessionCovers s (err e) c = c
    apply_requested-SessionCovers s (ok (closed_trades, updated_trades)) c =
        close_updated-SessionCovers closed_trades (update_running_trades s updated_trades)
          (update_running_trades-SessionCovers laws s updated_trades c)

    check_trades-SessionCovers :
        (answers : Answers) (lo hi : F64) (r : SessionOutcome)
        → SessionCovers r.0
        → SessionCovers (check_trades answers lo hi r).0
    unfolding check_trades
    check_trades-SessionCovers answers lo hi (s, err e) c = c
    check_trades-SessionCovers answers lo hi (s, ok u) c =
        elim (Bool-cases (not (was_reached s.trigger lo) && not (was_reached s.trigger hi))) [
          | inl e ↦ rw e c
          | inr e ↦ rw e (apply_requested-SessionCovers s _ c)
        ]

    refreshed-SessionCovers :
        (s : LiveTradingSession) (r : Result CrossPosition live.RestApiError)
        → SessionCovers s
        → SessionCovers (refreshed s r).0
    unfolding replace_cross_position
    refreshed-SessionCovers s (ok raw) c =
        replace_with-SessionCovers laws s (update_from_raw s.cross_position raw) c
    refreshed-SessionCovers s (err e) c = c

    refresh_if_liquidated-SessionCovers :
        (answers : Answers) (lo hi : F64) (s : LiveTradingSession)
        → SessionCovers s
        → SessionCovers (refresh_if_liquidated answers lo hi s).0
    unfolding refresh_if_liquidated
    refresh_if_liquidated-SessionCovers answers lo hi s c =
        elim (Bool-cases (liquidation_was_reached s.cross_position lo hi)) [
          | inl e ↦ rw e (refreshed-SessionCovers s answers.cross_position c)
          | inr e ↦ rw e c
        ]

    reevaluate_in-SessionCovers :
        (s : LiveTradingSession) (answers : Answers) (o : Option (F64 × F64 × DateTime × F64))
        → SessionCovers s
        → SessionCovers (reevaluate_in s answers o).0
    unfolding reevaluate_in
    reevaluate_in-SessionCovers s answers none c = c
    reevaluate_in-SessionCovers s answers (some (lo, hi, time, price)) c =
        check_trades-SessionCovers answers lo hi _
          (refresh_if_liquidated-SessionCovers answers lo hi _ c)

    SessionStep-covers :
        {s u : LiveTradingSession} → SessionStep s u → SessionCovers s → SessionCovers u
    unfolding replace_cross_position apply_cross_deposit apply_cross_withdraw register_cross_order
        reevaluate expire
    SessionStep-covers (registers s t tsl b) c =
        register_running_trade-SessionCovers laws s t tsl b c
    SessionStep-covers (updates s us) c = update_running_trades-SessionCovers laws s us c
    SessionStep-covers (closes s ts) c = close_session_trades-SessionCovers laws s ts c
    SessionStep-covers (replaces s raw) c = replace_with-SessionCovers laws s _ c
    SessionStep-covers (deposits s amount raw) c = deposit_to-SessionCovers s raw _ c
    SessionStep-covers (withdraws s amount raw) c = withdraw_to-SessionCovers s raw _ c
    SessionStep-covers (orders s raw order) c = replace_with-SessionCovers laws _ _ c
    SessionStep-covers (reevaluates s answers) c =
        reevaluate_in-SessionCovers s answers answers.price_range c
    SessionStep-covers (expires s now then_now) c = elim (Bool-cases (is_expired s now)) [
      | inl e ↦ rw e c
      | inr e ↦ rw e c
    ]

    -- If `Price` is totally ordered in agreement with `f64`: whatever operations a session goes
    -- through, those that fail included, its price trigger covers every running trade, if it did so
    -- at first.
    pub SessionReach-covers :
        (s u : LiveTradingSession) → SessionReach s u → SessionCovers s → SessionCovers u
    SessionReach-covers s u begins c = c
    SessionReach-covers s u (steps r h) c = SessionStep-covers h (SessionReach-covers s _ r c)
