-- ===== src/Trade/Live/Session.antt =====
-- `LiveTradingSession` of src/trade/live/executor/state/live_trading_session.rs. An operation gives
-- the session that it leaves, also with an error.
pub mod Close
pub mod Expiry
pub mod Start
pub mod Started
pub mod Transfer
pub mod Reached
pub mod Funding
pub mod Quiet
pub mod Reevaluate
pub mod TriggerKept
pub mod Update
use quantoxide.Dates.{floor_hour}
use quantoxide.Prelude.{
  Bool, List, Option, Result, [], err, false, if◌then◌else◌, leb, ltb, none, not, ok, reverse, some,
  true, unwrap_or, ℕ, ◌%◌, ◌*◌, ◌+◌, ◌-◌, ◌/◌, ◌||◌,
}
use quantoxide.Prelude.Int.{ℤ}
use quantoxide.Prelude.Machine.{i64_add, i64_as_u64, u64_checked, u64_checked_sub}
use quantoxide.Prelude.Maps.{Key, btree_insert, hash_get, hash_insert}
use quantoxide.Sdk.{Sdk}
use quantoxide.Time.{DateTime, hour, minute}
use quantoxide.Trade.Error.{TradeCoreError, trade_not_closed}
use quantoxide.Trade.Live.{
  ExecutorActionError, LiveSdk, cross_balance_too_high, cross_balance_too_low, live_trigger_update,
  new_trade_not_running, trade_already_registered,
}
use quantoxide.Trade.Live.CrossPosition.{LiveCrossPosition, update_after_order, update_from_raw}
use quantoxide.Trade.Simulated.{SimulatedTradeRunning}
use quantoxide.Trade.Stoploss.{TradeTrailingStoploss}
use quantoxide.Trade.Trigger.{PriceTrigger, trigger_update}

-- When a session expires that begins at a time: 5 minutes past the hour.
unfoldable pub session_expiry : DateTime → DateTime
session_expiry now =
    if ltb (now % hour / minute) 5
    then floor_hour now + 5 * minute
    else floor_hour now + hour + 5 * minute

module _ ⦃sdk : Sdk⦄ ⦃live : LiveSdk⦄ where
  open sdk use {F64, PercentageCapped, margin_as_u64}
  open live use {
    CrossOrder, CrossPosition, Trade, order_created_at, order_filled_at, trade_closed,
    trade_closed_at, trade_closing_fee, trade_client_id, trade_created_at, trade_exit_price,
    trade_id, trade_leverage, trade_liquidation, trade_maintenance_margin, trade_margin,
    trade_opening_fee, trade_pl, trade_price, trade_quantity, trade_running, trade_side,
    trade_stoploss, trade_sum_funding_fees, trade_takeprofit,
  }

  -- The getters of `TradeCore` that the functions on running trades of src/trade/core.rs call.
  unfoldable pub as_running : Trade → SimulatedTradeRunning
  as_running t = record {
    id = trade_id t;
    side = trade_side t;
    opening_fee = trade_opening_fee t;
    closing_fee_reserved = trade_closing_fee t;
    quantity = trade_quantity t;
    margin = trade_margin t;
    leverage = trade_leverage t;
    price = trade_price t;
    liquidation = trade_liquidation t;
    stoploss = trade_stoploss t;
    takeprofit = trade_takeprofit t;
    entry_time = trade_created_at t;
    entry_price = trade_price t;  -- of the record, which the trait does not have
    client_id = trade_client_id t;
  }

  -- `RunningTradesMap` over the trades of the crate.
  abbrev pub LiveEntry : Type 0
  LiveEntry = Trade × Option TradeTrailingStoploss

  pub record LiveTradesMap : Type 0 where
    pub trades : List (Key × LiveEntry)
    pub id_to_time : List (ℕ × DateTime)

  abbrev pub no_trades : LiveTradesMap
  no_trades = record { trades = []; id_to_time = [] }

  unfoldable pub add_live : LiveTradesMap → Trade → Option TradeTrailingStoploss → LiveTradesMap
  add_live m t tsl = record {
    trades = btree_insert (trade_created_at t, trade_id t) (t, tsl) m.trades;
    id_to_time = hash_insert (trade_id t) (trade_created_at t) m.id_to_time;
  }

  abbrev pub has_value {ℓ} : {A : Type ℓ} → Option A → Bool
  has_value none = false
  has_value (some a) = true

  unfoldable pub contains_live : LiveTradesMap → ℕ → Bool
  contains_live m id = has_value (hash_get id m.id_to_time)

  -- `trades_desc`: newest first.
  unfoldable pub live_trades_desc : LiveTradesMap → List (Key × LiveEntry)
  live_trades_desc m = reverse m.trades

  -- `ClosedTradeHistory` over the trades of the crate.
  pub record LiveClosedHistory : Type 0 where
    pub trades : List (Key × Trade)
    pub id_to_time : List (ℕ × DateTime)

  abbrev pub no_history : LiveClosedHistory
  no_history = record { trades = []; id_to_time = [] }

  unfoldable pub add_closed_live :
      LiveClosedHistory → Trade → Result LiveClosedHistory TradeCoreError
  add_closed_live h t =
      if not (trade_closed t)
        || not (has_value (trade_exit_price t))
        || not (has_value (trade_closed_at t))
      then err (trade_not_closed (trade_id t))
      else ok (record {
        trades = btree_insert (trade_created_at t, trade_id t) t h.trades;
        id_to_time = hash_insert (trade_id t) (trade_created_at t) h.id_to_time;
      })

  pub record LiveTradingSession : Type 0 where
    pub expires_at : DateTime
    pub tsl_step_size : PercentageCapped
    pub last_trade_time : Option DateTime
    pub balance : ℕ
    pub last_evaluation_time : DateTime
    pub last_price : F64
    pub trigger : PriceTrigger
    pub running_map : LiveTradesMap
    pub realized_pl : ℤ
    pub closed_history : LiveClosedHistory
    pub closed_fees : ℕ
    pub funding_fees : ℤ
    pub funding_snapshot : List (ℕ × ℤ)
    pub cross_position : LiveCrossPosition

  abbrev pub SessionOutcome : Type 0
  SessionOutcome = LiveTradingSession × Result (Unit {0}) ExecutorActionError

  -- `is_expired` at the time that the clock says, and `expire`, which reads the clock twice.
  pub is_expired : LiveTradingSession → DateTime → Bool
  is_expired s now = leb s.expires_at now

  pub expire : LiveTradingSession → DateTime → DateTime → LiveTradingSession
  expire s now then_now = if not (is_expired s now) then record s { expires_at = then_now } else s

  -- The later of the last trade and a time.
  unfoldable pub latest_time : Option DateTime → DateTime → Option DateTime
  latest_time none time = some time
  latest_time (some last) time = if ltb last time then some time else some last

  -- The balance after a trade has taken its margin, reserve and fee.
  unfoldable pub charged_balance : ℕ → Trade → ℕ
  charged_balance balance t =
      balance
      - margin_as_u64 (trade_margin t)
      - i64_as_u64 (trade_maintenance_margin t)
      - trade_opening_fee t

  -- `register_running_trade`, past its guards: the time and the balance are written before the
  -- trigger may fail.
  unfoldable pub register_with :
      LiveTradingSession
      → Trade
      → Option TradeTrailingStoploss
      → Result PriceTrigger TradeCoreError
      → SessionOutcome
  register_with s t tsl (err e) = (s, err (live_trigger_update e))
  register_with s t tsl (ok g) = (
    record s {
      trigger = g;
      funding_fees = i64_add s.funding_fees (trade_sum_funding_fees t);
      funding_snapshot = hash_insert (trade_id t) (trade_sum_funding_fees t) s.funding_snapshot;
      running_map = add_live s.running_map t tsl;
    },
    ok tt,
  )

  unfoldable pub note_trade : LiveTradingSession → Trade → Bool → LiveTradingSession
  note_trade s t update_balance = record s {
    last_trade_time = latest_time s.last_trade_time (trade_created_at t);
    balance = if update_balance then charged_balance s.balance t else s.balance;
  }

  unfoldable pub register_running_trade :
      LiveTradingSession → Trade → Option TradeTrailingStoploss → Bool → SessionOutcome
  register_running_trade s t tsl update_balance =
      if not (trade_running t)
      then (s, err (new_trade_not_running (trade_id t)))
      else if contains_live s.running_map (trade_id t)
      then (s, err (trade_already_registered (trade_id t)))
      else register_with (note_trade s t update_balance) t tsl
          (trigger_update s.trigger s.tsl_step_size (as_running t) tsl)

  -- What an operation on the cross position does to the session, if it succeeds.
  unfoldable pub replace_with :
      LiveTradingSession → Result LiveCrossPosition ExecutorActionError → SessionOutcome
  replace_with s (ok p) = (record s { cross_position = p }, ok tt)
  replace_with s (err e) = (s, err e)

  unfoldable pub replace_cross_position : LiveTradingSession → CrossPosition → SessionOutcome
  replace_cross_position s raw = replace_with s (update_from_raw s.cross_position raw)

  unfoldable pub set_balance : ℕ → SessionOutcome → SessionOutcome
  set_balance new_balance (s, ok a) = (record s { balance = new_balance }, ok a)
  set_balance new_balance (s, err e) = (s, err e)

  unfoldable pub deposit_to : LiveTradingSession → CrossPosition → Option ℕ → SessionOutcome
  deposit_to s raw none = (s, err cross_balance_too_low)
  deposit_to s raw (some new_balance) = set_balance new_balance (replace_cross_position s raw)

  unfoldable pub apply_cross_deposit : LiveTradingSession → ℕ → CrossPosition → SessionOutcome
  apply_cross_deposit s amount raw = deposit_to s raw (u64_checked_sub s.balance amount)

  unfoldable pub withdraw_to : LiveTradingSession → CrossPosition → Option ℕ → SessionOutcome
  withdraw_to s raw none = (s, err cross_balance_too_high)
  withdraw_to s raw (some new_balance) = set_balance new_balance (replace_cross_position s raw)

  unfoldable pub apply_cross_withdraw : LiveTradingSession → ℕ → CrossPosition → SessionOutcome
  apply_cross_withdraw s amount raw = withdraw_to s raw (u64_checked (s.balance + amount))

  -- The time of the order is noted before the position may be refused.
  pub register_cross_order : LiveTradingSession → CrossPosition → CrossOrder → SessionOutcome
  register_cross_order s raw order =
      let noted : LiveTradingSession = record s {
        last_trade_time =
            latest_time s.last_trade_time
              (unwrap_or (order_filled_at order) (order_created_at order));
      } in
      replace_with noted (update_after_order s.cross_position raw)
