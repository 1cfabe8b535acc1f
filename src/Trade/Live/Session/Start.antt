-- ===== src/Trade/Live/Session/Start.antt =====
-- `LiveTradingSession::new`: a session from what the API and the database say, and from the session
-- before it.
use quantoxide.Prelude.{
  Bool, List, Option, Result, [], err, false, if◌then◌else◌, length, map_err, none, not, ok, ok_or,
  some, suc, unwrap_or, zero, ℕ, ◌==◌, ◌>>=◌, ◌||◌, ◌∷◌,
}
use quantoxide.Prelude.Int.{pos, ℤ}
use quantoxide.Prelude.Machine.{i64_add, i64_sub, u64_add}
use quantoxide.Prelude.Maps.{Key, hash_get, hash_remove}
use quantoxide.Sdk.{Sdk}
use quantoxide.Time.{DateTime}
use quantoxide.Trade.Live.{
  ExecutorActionError, LiveSdk, closed_trade_not_confirmed, db_is_empty, live_history_update,
  live_position_validation, rest_api,
}
use quantoxide.Trade.Live.CrossPosition.{LiveCrossPosition, from_raw, update_from_raw}
use quantoxide.Trade.Live.Session.{
  LiveEntry, LiveTradingSession, SessionOutcome, add_closed_live, latest_time, live_trades_desc,
  no_history, no_trades, register_running_trade, session_expiry,
}
use quantoxide.Trade.Live.Session.Reevaluate.{remove_id}
use quantoxide.Trade.Simulated.{closed_at}
use quantoxide.Trade.Stoploss.{TradeTrailingStoploss}
use quantoxide.Trade.Trigger.{not_set}

module _ ⦃sdk : Sdk⦄ ⦃live : LiveSdk⦄ where
  open sdk use {F64, PercentageCapped}
  open live use {
    CrossPosition, RestApiError, Trade, trade_closed_at, trade_closing_fee, trade_id,
    trade_opening_fee, trade_pl, trade_sum_funding_fees,
  }

  -- The answers of the database, of the API and of the clock.
  pub record Startup : Type 0 where
    pub latest_entry : Option (DateTime × F64)
    pub user_balance : Result ℕ RestApiError
    pub now : DateTime
    pub cross_position : Result CrossPosition RestApiError
    pub running_trades : Result (List Trade) RestApiError
    pub closed_trades : ℕ → Result (List Trade) RestApiError
    pub registered : List (ℕ × Option TradeTrailingStoploss)

  unfoldable pub start_position :
      Option LiveTradingSession → CrossPosition → Result LiveCrossPosition ExecutorActionError
  start_position none raw = map_err live_position_validation (from_raw raw (pos 0))
  start_position (some prev) raw = update_from_raw prev.cross_position raw

  abbrev pub snapshot_of : Option LiveTradingSession → List (ℕ × ℤ)
  snapshot_of none = []
  snapshot_of (some prev) = prev.funding_snapshot

  unfoldable pub fresh_session :
      PercentageCapped
      → DateTime
      → DateTime × F64
      → ℕ
      → LiveCrossPosition
      → Option LiveTradingSession
      → LiveTradingSession
  fresh_session step now (time, price) balance p none = record {
    expires_at = session_expiry now;
    tsl_step_size = step;
    last_trade_time = none;
    balance = balance;
    last_evaluation_time = time;
    last_price = price;
    trigger = not_set;
    running_map = no_trades;
    realized_pl = pos 0;
    closed_history = no_history;
    closed_fees = 0;
    funding_fees = pos 0;
    funding_snapshot = [];
    cross_position = p;
  }
  fresh_session step now (time, price) balance p (some prev) = record {
    expires_at = session_expiry now;
    tsl_step_size = step;
    last_trade_time = prev.last_trade_time;
    balance = balance;
    last_evaluation_time = time;
    last_price = price;
    trigger = not_set;
    running_map = no_trades;
    realized_pl = prev.realized_pl;
    closed_history = prev.closed_history;
    closed_fees = prev.closed_fees;
    funding_fees = prev.funding_fees;
    funding_snapshot = [];
    cross_position = p;
  }

  abbrev pub has_id : ℕ → List ℕ → Bool
  has_id id [] = false
  has_id id (j ∷ ids) = id == j || has_id id ids

  abbrev pub ids_of : List Trade → List ℕ
  ids_of [] = []
  ids_of (t ∷ ts) = trade_id t ∷ ids_of ts

  -- The trades of the session before that do not run any more.
  unfoldable pub missed_ids : List ℕ → List (Key × LiveEntry) → List ℕ
  missed_ids running_ids [] = []
  missed_ids running_ids ((k, (t, tsl)) ∷ es) =
      let rest = missed_ids running_ids es in
      if has_id (trade_id t) running_ids then rest else trade_id t ∷ rest

  abbrev pub latest_closing : Option DateTime → Option DateTime → Option DateTime
  latest_closing last none = last
  latest_closing last (some closed_at) = latest_time last closed_at

  -- A missed trade is booked on the new session, with its funding fees since the baseline.
  unfoldable pub book_missed :
      List (ℕ × ℤ) → LiveTradingSession → Trade → Result LiveTradingSession ExecutorActionError
  book_missed snapshot s t = do
    h ← map_err live_history_update (add_closed_live s.closed_history t)
    ok (record s {
      realized_pl = i64_add s.realized_pl (trade_pl t);
      closed_fees = u64_add s.closed_fees (u64_add (trade_opening_fee t) (trade_closing_fee t));
      closed_history = h;
      funding_fees =
          i64_add s.funding_fees (
            i64_sub (trade_sum_funding_fees t)
              (unwrap_or (hash_get (trade_id t) snapshot) (pos 0)));
      last_trade_time = latest_closing s.last_trade_time (trade_closed_at t);
    })

  unfoldable pub book_all_missed :
      List (ℕ × ℤ)
      → List ℕ
      → LiveTradingSession
      → List ℕ
      → List Trade
      → Result (LiveTradingSession × List ℕ) ExecutorActionError
  book_all_missed snapshot missed s unconfirmed [] = ok (s, unconfirmed)
  book_all_missed snapshot missed s unconfirmed (t ∷ ts) =
      let unbooked = book_all_missed snapshot missed s unconfirmed ts in
      if not (has_id (trade_id t) missed) then unbooked else do
        booked ← book_missed snapshot s t
        book_all_missed snapshot missed booked (remove_id (trade_id t) unconfirmed).1 ts

  unfoldable pub all_booked :
      LiveTradingSession × List ℕ → Result LiveTradingSession ExecutorActionError
  all_booked (s, []) = ok s
  all_booked (s, id ∷ ids) = err (closed_trade_not_confirmed id)

  abbrev pub at_least_one : ℕ → ℕ
  at_least_one zero = 1
  at_least_one (suc n) = suc n

  unfoldable pub reconcile_missed :
      Startup
      → LiveTradingSession
      → LiveTradingSession
      → List ℕ
      → Result LiveTradingSession ExecutorActionError
  reconcile_missed startup prev s [] = ok s
  reconcile_missed startup prev s (id ∷ ids) = do
    closed_trades ←
        map_err rest_api (startup.closed_trades (at_least_one (length prev.running_map.id_to_time)))
    booked ← book_all_missed prev.funding_snapshot (id ∷ ids) s (id ∷ ids) closed_trades
    all_booked booked

  unfoldable pub reconcile :
      Startup
      → Option LiveTradingSession
      → LiveTradingSession
      → List Trade
      → Result LiveTradingSession ExecutorActionError
  reconcile startup none s running_trades = ok s
  reconcile startup (some prev) s running_trades =
      reconcile_missed startup prev s
        (missed_ids (ids_of running_trades) (live_trades_desc prev.running_map))

  abbrev pub flatten {ℓ} : {A : Type ℓ} → Option (Option A) → Option A
  flatten none = none
  flatten (some o) = o

  -- The baseline is taken off, since the registration adds the whole sum.
  unfoldable pub less_baseline : List (ℕ × ℤ) → LiveTradingSession → Trade → LiveTradingSession
  less_baseline snapshot s t = record s {
    funding_fees =
        i64_sub s.funding_fees
          (unwrap_or (hash_get (trade_id t) snapshot) (trade_sum_funding_fees t));
  }

  abbrev pub only_ok : SessionOutcome → Result LiveTradingSession ExecutorActionError
  only_ok (s, ok u) = ok s
  only_ok (s, err e) = err e

  -- The session, with the registered trades that do not run: those are removed from the database.
  unfoldable pub recover_trades :
      List (ℕ × ℤ)
      → LiveTradingSession
      → List (ℕ × Option TradeTrailingStoploss)
      → List Trade
      → Result (LiveTradingSession × List (ℕ × Option TradeTrailingStoploss)) ExecutorActionError
  recover_trades snapshot s registered [] = ok (s, registered)
  recover_trades snapshot s registered (t ∷ ts) = do
    recovered ← only_ok (
        register_running_trade (less_baseline snapshot s t) t
          (flatten (hash_get (trade_id t) registered)) false)
    recover_trades snapshot recovered (hash_remove (trade_id t) registered) ts

  unfoldable pub recover :
      Startup
      → Option LiveTradingSession
      → LiveTradingSession
      → Result (LiveTradingSession × List (ℕ × Option TradeTrailingStoploss)) ExecutorActionError
  recover startup prev s = do
    running_trades ← map_err rest_api startup.running_trades
    reconciled ← reconcile startup prev s running_trades
    recover_trades (snapshot_of prev) reconciled startup.registered running_trades

  unfoldable pub new_session :
      Bool
      → PercentageCapped
      → Startup
      → Option LiveTradingSession
      → Result (LiveTradingSession × List (ℕ × Option TradeTrailingStoploss)) ExecutorActionError
  new_session recover_trades_on_startup step startup prev = do
    entry ← ok_or startup.latest_entry db_is_empty
    balance ← map_err rest_api startup.user_balance
    raw ← map_err rest_api startup.cross_position
    p ← start_position prev raw
    let s = fresh_session step startup.now entry balance p prev
    if not recover_trades_on_startup then ok (s, []) else recover startup prev s
