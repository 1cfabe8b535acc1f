-- ===== src/Examples/Live.antt =====
-- A live session at concrete inputs.
use quantoxide.Dates.{floor_hour}
use quantoxide.Examples.ToyLaws.{toy_prices}
use quantoxide.Examples.ToySdk.{toy_sdk}
use quantoxide.Prelude.{
  All, [], err, false, none, ok, refl, some, true, ℕ, ◌*◌, ◌+◌, ◌<◌, ◌∷◌, ◌≡◌, ◌≤◌,
}
use quantoxide.Prelude.Int.{negsuc, pos, ℤ, ◌+ℤ◌, ◌-ℤ◌}
use quantoxide.Prelude.Machine.{wrap_i64}
use quantoxide.Prelude.Maps.{Key, btree_insert, hash_get, hash_insert, hash_remove}
use quantoxide.Sdk.{buy, neutral}
use quantoxide.Time.{DateTime, hour, minute}
use quantoxide.Trade.Live.{LiveSdk}
use quantoxide.Trade.Live.CrossPosition.{
  LiveCrossPosition, from_raw, realized_by_order, update_after_order, update_from_raw,
}
use quantoxide.Trade.Live.CrossPosition.Books.{IsUpdateOf, put_in, update_after_order-balances}
use quantoxide.Trade.Live.Session.{
  LiveEntry, LiveTradingSession, add_closed_live, add_live, apply_cross_deposit,
  apply_cross_withdraw, as_running, charged_balance, contains_live, deposit_to, latest_time,
  live_trades_desc, no_history, no_trades, note_trade, register_running_trade, register_with,
  replace_cross_position, replace_with, session_expiry, set_balance, withdraw_to,
}
use quantoxide.Trade.Live.Session.Funding.{IsTakenOver, register_running_trade-IsTakenOver}
use quantoxide.Trade.Live.Session.Quiet.{quiet_range_closes_none}
use quantoxide.Trade.Live.Session.Reached.{SessionReach-covers, begins, registers, steps}
use quantoxide.Trade.Live.Session.Start.{
  Startup, all_booked, book_all_missed, book_missed, fresh_session, less_baseline, missed_ids,
  new_session, reconcile, reconcile_missed, recover, recover_trades, start_position,
}
use quantoxide.Trade.Live.Session.Started.{new_session-expires}
use quantoxide.Trade.Live.Session.Transfer.{DepositEnds, WithdrawEnds, cross_transfers_end}
use quantoxide.Trade.Live.Session.TriggerKept.{SessionCovers}
use quantoxide.Trade.Simulated.{closed_at}
use quantoxide.Trade.Trigger.{
  bounds_of, eval_trigger_bounds, narrow, next_stoploss_update_trigger, not_set, optional_trigger,
  price_max, price_min, stoploss_trigger_price, trigger_update, was_reached,
}
use quantoxide.Trade.Trigger.Quiet.{StaysOpen}

abbrev toy_trade_time : ℕ
toy_trade_time = 100

-- A trade as its id, its stoploss and the funding fees it has paid; a position as its margin and fees.
abbrev pub toy_live : LiveSdk ⦃sdk = toy_sdk⦄
toy_live = record {
  RestApiError = Unit {0};
  Trade = ℕ × ℕ × ℕ;
  trade_id = λ t. t.0;
  trade_side = λ t. buy;
  trade_opening_fee = λ t. 1;
  trade_closing_fee = λ t. 1;
  trade_maintenance_margin = λ t. pos 2;
  trade_quantity = λ t. true;
  trade_margin = λ t. 10;
  trade_leverage = λ t. 1;
  trade_price = λ t. 100;
  trade_liquidation = λ t. 50;
  trade_stoploss = λ t. some t.1;
  trade_takeprofit = λ t. none;
  trade_exit_price = λ t. none;
  trade_created_at = λ t. toy_trade_time;
  trade_closed_at = λ t. none;
  trade_running = λ t. true;
  trade_closed = λ t. false;
  trade_pl = λ t. pos 0;
  trade_sum_funding_fees = λ t. pos t.2;
  trade_client_id = λ t. none;
  CrossPosition = ℕ × ℕ;
  position_id = λ p. 0;
  position_margin = λ p. p.0;
  position_leverage = λ p. 1;
  position_exposure = λ p. ok neutral;
  position_funding_fees = λ p. pos 0;
  position_trading_fees = λ p. p.1;
  CrossOrder = DateTime;
  order_filled_at = λ o. some o;
  order_created_at = λ o. o;
}

instance toy_live_instance : LiveSdk ⦃sdk = toy_sdk⦄
toy_live_instance = toy_live

abbrev position_of : ℕ → ℕ → ℤ → LiveCrossPosition ⦃sdk = toy_sdk⦄ ⦃live = toy_live⦄
position_of margin fees realized_pl = record {
  id = 0;
  margin = margin;
  leverage = 1;
  exposure = neutral;
  realized_pl = realized_pl;
  start_funding_fees = pos 0;
  curr_funding_fees = pos 0;
  start_trading_fees = 3;
  curr_trading_fees = fees;
}

-- An order that costs 2 and loses 8.
update_after_order-balances_example :
    put_in ⦃sdk = toy_sdk⦄ ⦃live = toy_live⦄ (position_of 90 5 (negsuc 7))
      ≡ put_in ⦃sdk = toy_sdk⦄ ⦃live = toy_live⦄ (position_of 100 3 (pos 0))
    × IsUpdateOf ⦃sdk = toy_sdk⦄ ⦃live = toy_live⦄
        (position_of 100 3 (pos 0))
        (90, 5)
        (position_of 90 5 (negsuc 7))
unfolding realized_by_order update_after_order ◌+ℤ◌ ◌-ℤ◌
update_after_order-balances_example =
    update_after_order-balances ⦃sdk = toy_sdk⦄ ⦃live = toy_live⦄ (position_of 100 3 (pos 0))
      (90, 5) (position_of 90 5 (negsuc 7)) refl

abbrev pub empty_session : LiveTradingSession ⦃sdk = toy_sdk⦄ ⦃live = toy_live⦄
empty_session = record {
  expires_at = 5 * minute;
  tsl_step_size = 1;
  last_trade_time = none;
  balance = 1000;
  last_evaluation_time = 0;
  last_price = pos 100;
  trigger = not_set;
  running_map = no_trades ⦃sdk = toy_sdk⦄ ⦃live = toy_live⦄;
  realized_pl = pos 0;
  closed_history = no_history ⦃sdk = toy_sdk⦄ ⦃live = toy_live⦄;
  closed_fees = 0;
  funding_fees = pos 0;
  funding_snapshot = [];
  cross_position = position_of 100 3 (pos 0);
}

abbrev with_trade : LiveTradingSession ⦃sdk = toy_sdk⦄ ⦃live = toy_live⦄
with_trade =
    (register_running_trade ⦃sdk = toy_sdk⦄ ⦃live = toy_live⦄ empty_session (7, 80, 4) none true).0

cross_transfers_end_example :
    DepositEnds ⦃sdk = toy_sdk⦄ ⦃live = toy_live⦄ empty_session 50
      (150, 3)
      (record empty_session { balance = 950; cross_position = position_of 150 3 (pos 0) }, ok tt)
    × WithdrawEnds ⦃sdk = toy_sdk⦄ ⦃live = toy_live⦄ empty_session 50
        (150, 3)
        (record empty_session { balance = 1050; cross_position = position_of 150 3 (pos 0) }, ok tt)
unfolding apply_cross_deposit apply_cross_withdraw deposit_to replace_cross_position replace_with
    set_balance update_from_raw withdraw_to ◌+ℤ◌ ◌-ℤ◌
cross_transfers_end_example =
    cross_transfers_end ⦃sdk = toy_sdk⦄ ⦃live = toy_live⦄ empty_session 50 (150, 3)

with_trade-SessionCovers : SessionCovers ⦃sdk = toy_sdk⦄ ⦃live = toy_live⦄ with_trade
with_trade-SessionCovers =
    SessionReach-covers ⦃sdk = toy_sdk⦄ ⦃live = toy_live⦄ toy_prices empty_session with_trade
      (steps begins (registers empty_session (7, 80, 4) none true)) tt

SessionReach-covers_example : SessionCovers ⦃sdk = toy_sdk⦄ ⦃live = toy_live⦄ with_trade
SessionReach-covers_example =
    SessionReach-covers ⦃sdk = toy_sdk⦄ ⦃live = toy_live⦄ toy_prices empty_session with_trade
      (steps begins (registers empty_session (7, 80, 4) none true)) tt

quiet_range_closes_none_example :
    All
      (λ (e : Key × LiveEntry ⦃sdk = toy_sdk⦄ ⦃live = toy_live⦄).
        StaysOpen ⦃sdk = toy_sdk⦄
          (as_running ⦃sdk = toy_sdk⦄ ⦃live = toy_live⦄ e.1.0)
          (pos 90)
          (pos 110))
      with_trade.running_map.trades
unfolding add_live as_running bounds_of btree_insert charged_balance contains_live
    eval_trigger_bounds hash_get hash_insert latest_time narrow next_stoploss_update_trigger
    note_trade optional_trigger price_max price_min register_running_trade register_with
    stoploss_trigger_price trigger_update was_reached wrap_i64 ◌+ℤ◌ ◌-ℤ◌
quiet_range_closes_none_example =
    quiet_range_closes_none ⦃sdk = toy_sdk⦄ ⦃live = toy_live⦄ toy_prices with_trade (pos 90)
      (pos 110) with_trade-SessionCovers refl refl

abbrev started : Startup ⦃sdk = toy_sdk⦄ ⦃live = toy_live⦄
started = record {
  latest_entry = some (0, pos 100);
  user_balance = ok 1000;
  now = 6 * minute;
  cross_position = ok (100, 3);
  running_trades = ok ((7, 80, 4) ∷ []);
  closed_trades = λ limit. ok [];
  registered = [];
}

abbrev recovered : LiveTradingSession ⦃sdk = toy_sdk⦄ ⦃live = toy_live⦄
recovered = elim (new_session ⦃sdk = toy_sdk⦄ ⦃live = toy_live⦄ true 1 started (some with_trade)) [
  | ok r ↦ r.0
  | err e ↦ empty_session
]

new_session-expires_example :
    SessionCovers ⦃sdk = toy_sdk⦄ ⦃live = toy_live⦄ recovered
    × (6 * minute < recovered.expires_at)
    × (recovered.expires_at ≤ 6 * minute + hour)
unfolding add_closed_live add_live all_booked as_running book_all_missed book_missed bounds_of
    btree_insert charged_balance closed_at contains_live eval_trigger_bounds floor_hour
    fresh_session from_raw hash_get hash_insert hash_remove latest_time less_baseline
    live_trades_desc missed_ids narrow new_session next_stoploss_update_trigger note_trade
    optional_trigger price_max price_min reconcile reconcile_missed recover recover_trades
    register_running_trade register_with session_expiry start_position stoploss_trigger_price
    trigger_update update_from_raw wrap_i64 ◌+ℤ◌ ◌-ℤ◌
new_session-expires_example =
    new_session-expires ⦃sdk = toy_sdk⦄ ⦃live = toy_live⦄ toy_prices true 1 started
      (some with_trade) recovered [] refl

-- The trade had paid 4 when it was first seen, and has paid 9 since.
register_running_trade-IsTakenOver_example :
    IsTakenOver ⦃sdk = toy_sdk⦄ ⦃live = toy_live⦄ empty_session
      (7, 80, 13)
      (pos 4)
      (register_running_trade ⦃sdk = toy_sdk⦄ ⦃live = toy_live⦄
        (less_baseline ⦃sdk = toy_sdk⦄ ⦃live = toy_live⦄
          ((7, pos 4) ∷ [])
          empty_session
          (7, 80, 13))
        (7, 80, 13)
        none
        false).0
unfolding add_live as_running bounds_of btree_insert charged_balance contains_live
    eval_trigger_bounds hash_get hash_insert latest_time less_baseline narrow
    next_stoploss_update_trigger note_trade optional_trigger price_max price_min
    register_running_trade register_with stoploss_trigger_price trigger_update wrap_i64 ◌+ℤ◌ ◌-ℤ◌
register_running_trade-IsTakenOver_example =
    register_running_trade-IsTakenOver ⦃sdk = toy_sdk⦄ ⦃live = toy_live⦄ empty_session (7, 80, 13)
      none ((7, pos 4) ∷ []) (pos 4)
      (register_running_trade ⦃sdk = toy_sdk⦄ ⦃live = toy_live⦄
        (less_baseline ⦃sdk = toy_sdk⦄ ⦃live = toy_live⦄ ((7, pos 4) ∷ []) empty_session
          (7, 80, 13))
        (7, 80, 13) none false).0
      refl refl
