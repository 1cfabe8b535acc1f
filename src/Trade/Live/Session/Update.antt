-- ===== src/Trade/Live/Session/Update.antt =====
-- `update_running_trades` of the live session.
use quantoxide.Prelude.{
  Bool, List, Option, Result, [], err, false, if◌then◌else◌, map_err, none, ok, some, true, ℕ,
  ◌>>=◌, ◌∷◌,
}
use quantoxide.Prelude.Int.{pos_part, ℤ}
use quantoxide.Prelude.Machine.{as_i64, i64_add, i64_sub}
use quantoxide.Prelude.Maps.{Key, hash_get, hash_remove}
use quantoxide.Sdk.{Sdk}
use quantoxide.Trade.Live.{
  ExecutorActionError, LiveSdk, live_trigger_update, updated_trades_not_running,
}
use quantoxide.Trade.Live.Session.{
  LiveEntry, LiveTradesMap, LiveTradingSession, SessionOutcome, add_live, as_running,
  live_trades_desc, no_trades,
}
use quantoxide.Trade.Simulated.{est_pl}
use quantoxide.Trade.Stoploss.{TradeTrailingStoploss}
use quantoxide.Trade.Trigger.{PriceTrigger, not_set, trigger_update}

module _ ⦃sdk : Sdk⦄ ⦃live : LiveSdk⦄ where
  open sdk use {f64_round, f64_as_i64, PercentageCapped, margin_as_i64}
  open live use {Trade, trade_id, trade_maintenance_margin, trade_margin, trade_price}

  -- The variables of the loop, with the updates that no trade has taken yet.
  pub record UpdateTally : Type 0 where
    pub updates : List (ℕ × Trade)
    pub new_running_map : LiveTradesMap
    pub new_trigger : PriceTrigger
    pub new_balance : ℤ
    pub new_realized_pl : ℤ

  -- The trade goes on in the new map, inside the bounds of the new trigger.
  unfoldable pub keep_live :
      PercentageCapped
      → UpdateTally
      → Trade
      → Option TradeTrailingStoploss
      → Result UpdateTally ExecutorActionError
  keep_live step a t tsl = do
    g ← map_err live_trigger_update (trigger_update a.new_trigger step (as_running t) tsl)
    ok (record a { new_trigger = g; new_running_map = add_live a.new_running_map t tsl })

  pub cashed_in_pl : Trade → Trade → ℤ
  cashed_in_pl t updated_trade =
      f64_as_i64 (f64_round (est_pl (as_running t) (trade_price updated_trade)))

  -- What an update frees of the trade's collateral, with the profit that was cashed in.
  pub collateral_delta : Trade → Trade → ℤ
  collateral_delta t u =
      i64_sub
        (i64_sub
          (i64_add (i64_add (margin_as_i64 (trade_margin t)) (trade_maintenance_margin t))
            (cashed_in_pl t u))
          (margin_as_i64 (trade_margin u)))
        (trade_maintenance_margin u)

  unfoldable pub book_update : UpdateTally → Trade → Trade → UpdateTally
  book_update a t u = record a {
    updates = hash_remove (trade_id t) a.updates;
    new_balance = i64_add a.new_balance (collateral_delta t u);
    new_realized_pl = i64_add a.new_realized_pl (cashed_in_pl t u);
  }

  unfoldable pub update_trade :
      PercentageCapped
      → UpdateTally
      → LiveEntry
      → Option Trade
      → Result UpdateTally ExecutorActionError
  update_trade step a (t, tsl) none = keep_live step a t tsl
  update_trade step a (t, tsl) (some u) = keep_live step (book_update a t u) u tsl

  unfoldable pub update_trades :
      PercentageCapped
      → UpdateTally
      → List (Key × LiveEntry)
      → Result UpdateTally ExecutorActionError
  update_trades step a [] = ok a
  update_trades step a ((k, e) ∷ es) = do
    b ← update_trade step a e (hash_get (trade_id e.0) a.updates)
    update_trades step b es

  unfoldable pub finish_update : LiveTradingSession → UpdateTally → LiveTradingSession
  finish_update s a = record s {
    trigger = a.new_trigger;
    running_map = a.new_running_map;
    balance = pos_part a.new_balance;
    realized_pl = a.new_realized_pl;
  }

  abbrev pub keys : List (ℕ × Trade) → List ℕ
  keys [] = []
  keys ((id, t) ∷ us) = id ∷ keys us

  abbrev pub no_updates : List (ℕ × Trade) → Bool
  no_updates [] = true
  no_updates (u ∷ us) = false

  unfoldable pub update_out :
      LiveTradingSession → Result UpdateTally ExecutorActionError → SessionOutcome
  update_out s (err e) = (s, err e)
  update_out s (ok a) =
      if no_updates a.updates
      then (finish_update s a, ok tt)
      else (s, err (updated_trades_not_running (keys a.updates)))

  unfoldable pub start_update : LiveTradingSession → List (ℕ × Trade) → UpdateTally
  start_update s updated_trades = record {
    updates = updated_trades;
    new_running_map = no_trades;
    new_trigger = not_set;
    new_balance = as_i64 s.balance;
    new_realized_pl = s.realized_pl;
  }

  unfoldable pub update_running_trades : LiveTradingSession → List (ℕ × Trade) → SessionOutcome
  update_running_trades s updated_trades =
      if no_updates updated_trades
      then (s, ok tt)
      else update_out s (
          update_trades s.tsl_step_size (start_update s updated_trades)
            (live_trades_desc s.running_map))

  pub update_running_trade : LiveTradingSession → Trade → SessionOutcome
  update_running_trade s t = update_running_trades s ((trade_id t, t) ∷ [])
