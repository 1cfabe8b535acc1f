-- ===== src/Trade/Live/Session/Close.antt =====
-- `close_trades` of the live session.
use quantoxide.Prelude.{
  Bool, List, Option, Result, [], err, false, if◌then◌else◌, none, not, ok, some, true, ℕ, ◌>>=◌,
  ◌∷◌,
}
use quantoxide.Prelude.Int.{pos_part, ℤ}
use quantoxide.Prelude.Machine.{as_i64, i64_add, i64_sub, u64_add}
use quantoxide.Prelude.Maps.{Key, hash_get, hash_insert, hash_remove}
use quantoxide.Sdk.{Sdk}
use quantoxide.Time.{DateTime}
use quantoxide.Trade.Error.{TradeCoreError}
use quantoxide.Trade.Live.{
  ExecutorActionError, LiveSdk, live_history_update, live_trade_not_closed, live_trigger_update,
  trade_not_registered,
}
use quantoxide.Trade.Live.Session.{
  LiveClosedHistory, LiveEntry, LiveTradesMap, LiveTradingSession, SessionOutcome, add_closed_live,
  add_live, as_running, contains_live, latest_time, live_trades_desc, no_trades,
}
use quantoxide.Trade.Simulated.{closed_at}
use quantoxide.Trade.Stoploss.{TradeTrailingStoploss}
use quantoxide.Trade.Trigger.{PriceTrigger, not_set, trigger_update}

module _ ⦃sdk : Sdk⦄ ⦃live : LiveSdk⦄ where
  open sdk use {PercentageCapped, margin_as_i64}
  open live use {
    Trade, trade_closed_at, trade_closing_fee, trade_id, trade_maintenance_margin, trade_margin,
    trade_opening_fee, trade_pl, trade_sum_funding_fees,
  }

  -- The first loop: each trade has been closed and is registered, the closed trades by their ids and
  -- the time of the last one.
  abbrev pub Confirmed : Type 0
  Confirmed = List (ℕ × Trade) × Option DateTime

  pub confirm_trade :
      LiveTradesMap → Confirmed → Trade → Option DateTime → Result Confirmed ExecutorActionError
  confirm_trade m (closed_map, last) t none = err (live_trade_not_closed (trade_id t))
  confirm_trade m (closed_map, last) t (some closed_at) =
      if not (contains_live m (trade_id t))
      then err (trade_not_registered (trade_id t))
      else ok (hash_insert (trade_id t) t closed_map, latest_time last closed_at)

  pub confirm_trades : LiveTradesMap → Confirmed → List Trade → Result Confirmed ExecutorActionError
  confirm_trades m c [] = ok c
  confirm_trades m c (t ∷ ts) = do
    d ← confirm_trade m c t (trade_closed_at t)
    confirm_trades m d ts

  -- The variables of the second loop. The last three are the session's own.
  pub record CloseTally : Type 0 where
    pub closed_map : List (ℕ × Trade)
    pub new_running_map : LiveTradesMap
    pub new_trigger : PriceTrigger
    pub new_balance : ℤ
    pub new_realized_pl : ℤ
    pub new_closed_fees : ℕ
    pub closed_history : LiveClosedHistory
    pub funding_fees : ℤ
    pub funding_snapshot : List (ℕ × ℤ)

  abbrev pub CloseOutcome : Type 0
  CloseOutcome = CloseTally × Result (Unit {0}) ExecutorActionError

  -- The funding fees since the baseline that was taken at registration.
  abbrev pub realize_funding : CloseTally → Trade → Option ℤ → CloseTally
  realize_funding a c none = a
  realize_funding a c (some baseline) = record a {
    funding_fees = i64_add a.funding_fees (i64_sub (trade_sum_funding_fees c) baseline);
    funding_snapshot = hash_remove (trade_id c) a.funding_snapshot;
  }

  unfoldable pub book_live_close : CloseTally → Trade → Trade → CloseTally
  book_live_close a t c =
      realize_funding
        (record a {
          closed_map = hash_remove (trade_id t) a.closed_map;
          new_balance = i64_add a.new_balance (
              i64_add
                (i64_sub (i64_add (margin_as_i64 (trade_margin t)) (trade_maintenance_margin t))
                  (as_i64 (trade_closing_fee c)))
                (trade_pl c));
          new_realized_pl = i64_add a.new_realized_pl (trade_pl c);
          new_closed_fees =
              u64_add a.new_closed_fees (u64_add (trade_opening_fee c) (trade_closing_fee c));
        })
        c (hash_get (trade_id c) a.funding_snapshot)

  unfoldable pub close_with_history :
      CloseTally → Result LiveClosedHistory TradeCoreError → CloseOutcome
  close_with_history a (ok h) = (record a { closed_history = h }, ok tt)
  close_with_history a (err e) = (a, err (live_history_update e))

  unfoldable pub keep_open :
      CloseTally
      → Trade
      → Option TradeTrailingStoploss
      → Result PriceTrigger TradeCoreError
      → CloseOutcome
  keep_open a t tsl (ok g) =
      (record a { new_trigger = g; new_running_map = add_live a.new_running_map t tsl }, ok tt)
  keep_open a t tsl (err e) = (a, err (live_trigger_update e))

  unfoldable pub close_live_trade :
      PercentageCapped → CloseTally → LiveEntry → Option Trade → CloseOutcome
  close_live_trade step a (t, tsl) none =
      keep_open a t tsl (trigger_update a.new_trigger step (as_running t) tsl)
  close_live_trade step a (t, tsl) (some c) =
      let b = book_live_close a t c in close_with_history b (add_closed_live b.closed_history c)

  abbrev pub go_on : CloseOutcome → (CloseTally → CloseOutcome) → CloseOutcome
  go_on (a, ok u) rest = rest a
  go_on (a, err e) rest = (a, err e)

  unfoldable pub close_live_trades :
      PercentageCapped → CloseTally → List (Key × LiveEntry) → CloseOutcome
  close_live_trades step a [] = (a, ok tt)
  close_live_trades step a ((k, e) ∷ es) =
      go_on (close_live_trade step a e (hash_get (trade_id e.0) a.closed_map))
        λ b. close_live_trades step b es

  -- The session's own fields stay written when a later trade fails.
  unfoldable pub close_written : LiveTradingSession → CloseTally → LiveTradingSession
  close_written s a = record s {
    closed_history = a.closed_history;
    funding_fees = a.funding_fees;
    funding_snapshot = a.funding_snapshot;
  }

  unfoldable pub finish_live_close :
      LiveTradingSession → Option DateTime → CloseOutcome → SessionOutcome
  finish_live_close s last (a, err e) = (close_written s a, err e)
  finish_live_close s last (a, ok u) = (
    record (close_written s a) {
      last_trade_time = last;
      trigger = a.new_trigger;
      running_map = a.new_running_map;
      balance = pos_part a.new_balance;
      realized_pl = a.new_realized_pl;
      closed_fees = a.new_closed_fees;
    },
    ok tt,
  )

  unfoldable pub start_close : LiveTradingSession → List (ℕ × Trade) → CloseTally
  start_close s closed_map = record {
    closed_map = closed_map;
    new_running_map = no_trades;
    new_trigger = not_set;
    new_balance = as_i64 s.balance;
    new_realized_pl = s.realized_pl;
    new_closed_fees = s.closed_fees;
    closed_history = s.closed_history;
    funding_fees = s.funding_fees;
    funding_snapshot = s.funding_snapshot;
  }

  unfoldable pub close_confirmed :
      LiveTradingSession → Result Confirmed ExecutorActionError → SessionOutcome
  close_confirmed s (err e) = (s, err e)
  close_confirmed s (ok (closed_map, last)) = finish_live_close s last (
      close_live_trades s.tsl_step_size (start_close s closed_map) (live_trades_desc s.running_map))

  abbrev pub no_closed : List Trade → Bool
  no_closed [] = true
  no_closed (t ∷ ts) = false

  unfoldable pub close_session_trades : LiveTradingSession → List Trade → SessionOutcome
  close_session_trades s closed_trades =
      if no_closed closed_trades
      then (s, ok tt)
      else close_confirmed s (confirm_trades s.running_map ([], s.last_trade_time) closed_trades)

  pub close_session_trade : LiveTradingSession → Trade → SessionOutcome
  close_session_trade s t = close_session_trades s (t ∷ [])
