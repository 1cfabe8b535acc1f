-- ===== src/Trade/Live/Session/TriggerKept.antt =====
-- The price trigger of a live session covers its running trades, whatever happens to the session.
use quantoxide.Prelude.{
  All, All-map, Bool, Bool-cases, List, Option, Result, Result-cases, [], err, inl, inr, none, ok,
  ok_inj, some, split_bind, split_map_err, subst, ℕ, ◌∷◌, ◌≡◌,
}
use quantoxide.Prelude.Int.{ℤ}
use quantoxide.Prelude.Maps.{All-btree_insert, Key, hash_get}
use quantoxide.Sdk.{Sdk}
use quantoxide.Sdk.Laws.{PriceLaws}
use quantoxide.Time.{DateTime}
use quantoxide.Trade.Error.{TradeCoreError}
use quantoxide.Trade.Live.{ExecutorActionError, LiveSdk, live_trigger_update}
use quantoxide.Trade.Live.CrossPosition.{LiveCrossPosition}
use quantoxide.Trade.Live.Session.{
  LiveClosedHistory, LiveEntry, LiveTradesMap, LiveTradingSession, SessionOutcome, add_live,
  as_running, contains_live, live_trades_desc, note_trade, register_running_trade, register_with,
  replace_with, set_balance,
}
use quantoxide.Trade.Live.Session.Close.{
  CloseOutcome, CloseTally, book_live_close, close_confirmed, close_live_trade, close_live_trades,
  close_session_trades, close_with_history, close_written, confirm_trades, finish_live_close, go_on,
  keep_open, no_closed, realize_funding, start_close,
}
use quantoxide.Trade.Live.Session.Update.{
  UpdateTally, book_update, finish_update, keep_live, no_updates, start_update, update_out,
  update_running_trades, update_trade, update_trades,
}
use quantoxide.Trade.Stoploss.{TradeTrailingStoploss}
use quantoxide.Trade.Trigger.{PriceTrigger, trigger_update}
use quantoxide.Trade.Trigger.Coverage.{Covers, trigger_update-Covers}

module _ ⦃sdk : Sdk⦄ ⦃live : LiveSdk⦄ where
  open sdk use {PercentageCapped}
  open live use {CrossOrder, CrossPosition, Trade}

  abbrev pub LiveCovers : PercentageCapped → PriceTrigger → LiveTradesMap → Type 0
  LiveCovers step g m =
      All (λ (e : Key × LiveEntry). Covers step g (as_running e.1.0, e.1.1)) m.trades

  -- Every running trade is covered by the trigger of the session.
  abbrev pub SessionCovers : LiveTradingSession → Type 0
  SessionCovers s = LiveCovers s.tsl_step_size s.trigger s.running_map

  module _ (laws : PriceLaws) where
    add_live-LiveCovers :
        (step : PercentageCapped) (g : PriceTrigger) (m : LiveTradesMap) (t : Trade)
        (tsl : Option TradeTrailingStoploss) {g' : PriceTrigger}
        → trigger_update g step (as_running t) tsl ≡ ok g'
        → LiveCovers step g m
        → LiveCovers step g' (add_live m t tsl)
    unfolding add_live
    add_live-LiveCovers step g m t tsl {g' = g'} h c =
        let (new, old) = trigger_update-Covers laws g step (as_running t) tsl h in
        All-btree_insert (λ (e : Key × LiveEntry). Covers step g' (as_running e.1.0, e.1.1)) _
          (t, tsl) m.trades new
          (All-map (λ (e : Key × LiveEntry). Covers step g (as_running e.1.0, e.1.1))
            (λ (e : Key × LiveEntry). Covers step g' (as_running e.1.0, e.1.1)) m.trades
            (λ e. old (as_running e.1.0, e.1.1)) c)

    pub register_running_trade-SessionCovers :
        (s : LiveTradingSession) (t : Trade) (tsl : Option TradeTrailingStoploss) (b : Bool)
        → SessionCovers s
        → SessionCovers (register_running_trade s t tsl b).0
    unfolding register_running_trade register_with note_trade
    register_running_trade-SessionCovers s t tsl b c = elim (Bool-cases (live.trade_running t)) [
      | inr e ↦ rw e c
      | inl e ↦ elim (Bool-cases (contains_live s.running_map (live.trade_id t))) [
        | inl f ↦ rw (e, f) c
        | inr f ↦
            elim (Result-cases (trigger_update s.trigger s.tsl_step_size (as_running t) tsl)) [
              | inl (g, k) ↦
                  rw (e, f, k)
                    (add_live-LiveCovers s.tsl_step_size s.trigger s.running_map t tsl k c)
              | inr (x, k) ↦ rw (e, f, k) c
            ]
      ]
    ]

    keep_live-LiveCovers :
        (step : PercentageCapped) (a b : UpdateTally) (t : Trade)
        (tsl : Option TradeTrailingStoploss)
        → keep_live step a t tsl ≡ ok b
        → LiveCovers step a.new_trigger a.new_running_map
        → LiveCovers step b.new_trigger b.new_running_map
    unfolding keep_live
    keep_live-LiveCovers step a b t tsl h c =
        split_map_err live_trigger_update (trigger_update a.new_trigger step (as_running t) tsl) _ h
          λ g h1 k1.
            subst (λ (x : UpdateTally). LiveCovers step x.new_trigger x.new_running_map) (ok_inj k1)
              (add_live-LiveCovers step a.new_trigger a.new_running_map t tsl h1 c)

    update_trade-LiveCovers :
        (step : PercentageCapped) (a b : UpdateTally) (e : LiveEntry) (u : Option Trade)
        → update_trade step a e u ≡ ok b
        → LiveCovers step a.new_trigger a.new_running_map
        → LiveCovers step b.new_trigger b.new_running_map
    unfolding update_trade book_update
    update_trade-LiveCovers step a b (t, tsl) none h c = keep_live-LiveCovers step a b t tsl h c
    update_trade-LiveCovers step a b (t, tsl) (some u) h c =
        keep_live-LiveCovers step (book_update a t u) b u tsl h c

    update_trades-LiveCovers :
        (step : PercentageCapped) (a b : UpdateTally) (es : List (Key × LiveEntry))
        → update_trades step a es ≡ ok b
        → LiveCovers step a.new_trigger a.new_running_map
        → LiveCovers step b.new_trigger b.new_running_map
    unfolding update_trades
    update_trades-LiveCovers step a b [] h c =
        subst (λ (x : UpdateTally). LiveCovers step x.new_trigger x.new_running_map) (ok_inj h) c
    update_trades-LiveCovers step a b ((k, e) ∷ es) h c =
        split_bind (update_trade step a e (hash_get (live.trade_id e.0) a.updates)) _ h λ d h1 k1.
          update_trades-LiveCovers step d b es k1 (update_trade-LiveCovers step a d e _ h1 c)

    pub update_running_trades-SessionCovers :
        (s : LiveTradingSession) (us : List (ℕ × Trade))
        → SessionCovers s
        → SessionCovers (update_running_trades s us).0
    unfolding update_running_trades update_out finish_update start_update
    update_running_trades-SessionCovers s us c = elim (Bool-cases (no_updates us)) [
      | inl e ↦ rw e c
      | inr e ↦
          elim (Result-cases
            (update_trades s.tsl_step_size (start_update s us) (live_trades_desc s.running_map))) [
              | inr (x, f) ↦ rw (e, f) c
              | inl (a, f) ↦ elim (Bool-cases (no_updates a.updates)) [
                | inl g ↦
                    rw (e, f, g)
                      (update_trades-LiveCovers s.tsl_step_size (start_update s us) a _ f tt)
                | inr g ↦ rw (e, f, g) c
              ]
            ]
    ]

    -- Past a loop that ended well the new trigger covers the new map.
    abbrev CloseCovers : PercentageCapped → CloseOutcome → Type 0
    CloseCovers step (a, ok u) = LiveCovers step a.new_trigger a.new_running_map
    CloseCovers step (a, err e) = Unit

    realize_funding-same :
        (step : PercentageCapped) (a : CloseTally) (c : Trade) (o : Option ℤ)
        → LiveCovers step a.new_trigger a.new_running_map
        → LiveCovers step
            (realize_funding a c o).new_trigger
            (realize_funding a c o).new_running_map
    realize_funding-same step a c none h = h
    realize_funding-same step a c (some b) h = h

    close_with_history-CloseCovers :
        (step : PercentageCapped) (a : CloseTally) (r : Result LiveClosedHistory TradeCoreError)
        → LiveCovers step a.new_trigger a.new_running_map
        → CloseCovers step (close_with_history a r)
    unfolding close_with_history
    close_with_history-CloseCovers step a (ok h) c = c
    close_with_history-CloseCovers step a (err e) c = tt

    close_live_trade-CloseCovers :
        (step : PercentageCapped) (a : CloseTally) (e : LiveEntry) (o : Option Trade)
        → LiveCovers step a.new_trigger a.new_running_map
        → CloseCovers step (close_live_trade step a e o)
    unfolding close_live_trade book_live_close keep_open
    close_live_trade-CloseCovers step a (t, tsl) (some x) c =
        close_with_history-CloseCovers step (book_live_close a t x) _
          (realize_funding-same step _ x (hash_get (live.trade_id x) a.funding_snapshot) c)
    close_live_trade-CloseCovers step a (t, tsl) none c =
        elim (Result-cases (trigger_update a.new_trigger step (as_running t) tsl)) [
          | inl (g, k) ↦ rw k (add_live-LiveCovers step a.new_trigger a.new_running_map t tsl k c)
          | inr (x, k) ↦ rw k tt
        ]

    go_on-CloseCovers :
        (step : PercentageCapped) (r : CloseOutcome) (rest : CloseTally → CloseOutcome)
        → CloseCovers step r
        → ((b : CloseTally)
            → LiveCovers step b.new_trigger b.new_running_map
            → CloseCovers step (rest b))
        → CloseCovers step (go_on r rest)
    go_on-CloseCovers step (a, ok u) rest h k = k a h
    go_on-CloseCovers step (a, err e) rest h k = tt

    close_live_trades-CloseCovers :
        (step : PercentageCapped) (a : CloseTally) (es : List (Key × LiveEntry))
        → LiveCovers step a.new_trigger a.new_running_map
        → CloseCovers step (close_live_trades step a es)
    unfolding close_live_trades
    close_live_trades-CloseCovers step a [] c = c
    close_live_trades-CloseCovers step a ((k, e) ∷ es) c =
        go_on-CloseCovers step
          (close_live_trade step a e (hash_get (live.trade_id e.0) a.closed_map)) _
          (close_live_trade-CloseCovers step a e _ c)
          (λ b h. close_live_trades-CloseCovers step b es h)

    finish_live_close-SessionCovers :
        (s : LiveTradingSession) (last : Option DateTime) (r : CloseOutcome)
        → SessionCovers s
        → CloseCovers s.tsl_step_size r
        → SessionCovers (finish_live_close s last r).0
    unfolding finish_live_close close_written
    finish_live_close-SessionCovers s last (a, ok u) c h = h
    finish_live_close-SessionCovers s last (a, err e) c h = c

    pub close_session_trades-SessionCovers :
        (s : LiveTradingSession) (ts : List Trade)
        → SessionCovers s
        → SessionCovers (close_session_trades s ts).0
    unfolding close_session_trades close_confirmed start_close
    close_session_trades-SessionCovers s ts c = elim (Bool-cases (no_closed ts)) [
      | inl e ↦ rw e c
      | inr e ↦ elim (Result-cases (confirm_trades s.running_map ([], s.last_trade_time) ts)) [
        | inr (x, f) ↦ rw (e, f) c
        | inl (m, f) ↦
            rw (e, f)
              (finish_live_close-SessionCovers s m.1 _ c (
                close_live_trades-CloseCovers s.tsl_step_size (start_close s m.0)
                  (live_trades_desc s.running_map) tt))
      ]
    ]

    pub set_balance-SessionCovers :
        (b : ℕ) (r : SessionOutcome) → SessionCovers r.0 → SessionCovers (set_balance b r).0
    unfolding set_balance
    set_balance-SessionCovers b (s, ok u) c = c
    set_balance-SessionCovers b (s, err e) c = c

    pub replace_with-SessionCovers :
        (s : LiveTradingSession) (r : Result LiveCrossPosition ExecutorActionError)
        → SessionCovers s
        → SessionCovers (replace_with s r).0
    unfolding replace_with
    replace_with-SessionCovers s (ok p) c = c
    replace_with-SessionCovers s (err e) c = c
