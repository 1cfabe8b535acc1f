-- ===== src/Examples/Executor.antt =====
-- The simulated executor at concrete inputs: a long with a trailing stoploss is opened, a candle
-- moves its stoploss, and it is closed.
use quantoxide.Db.{OhlcCandleRow}
use quantoxide.Examples.ToyLaws.{toy_prices}
use quantoxide.Examples.ToySdk.{toy_sdk}
use quantoxide.Prelude.{All, [], arith, none, refl, some, true, ◌+◌, ◌∷◌, ◌≡◌, ◌≤◌}
use quantoxide.Prelude.Int.{pos, ℤ, ◌+ℤ◌, ◌-ℤ◌}
use quantoxide.Prelude.Machine.{wrap_i64}
use quantoxide.Prelude.Maps.{Key, btree_insert, hash_insert}
use quantoxide.Sdk.{buy, neutral, sell}
use quantoxide.Time.{minute, unix_epoch}
use quantoxide.Trade.Cross.{
  apply_amount_to_margin, close_exposure, close_on, coherent_exposure, cross_close, cross_new,
  cross_quantity, est_free_margin, est_running_pl, exposure_signed, is_coherent, is_liquid,
  liquidate, liquidate_on, liquidation_reached, liquidation_reached_on, maintenance_margin_of,
  pl_floor, running_margin_of, running_pl_of, signed_quantity, with_margin,
}
use quantoxide.Trade.Executor.{
  SimulatedTradeExecutorConfig, SimulatedTradeExecutorState, add_closed, book_closed, keep_running,
  proceeds, start_tally,
}
use quantoxide.Trade.Executor.Candle.{
  candle_close_out, candle_history, candle_next, candle_trade, candle_trades, candle_trades_update,
  candle_update, candle_update_with, cross_after_candle, exit_at, exit_bounds, exit_or_trail,
  exit_price_in, finish_candle, keep_trailed, quiet_candle, set_stoploss, tick_round, trail,
  trailed_stoploss,
}
use quantoxide.Trade.Executor.Close.{
  close_at, close_history, close_out, close_running, close_trade, close_trades, finish_close,
  should_be_closed, side_of,
}
use quantoxide.Trade.Executor.CrossAccount.{
  coherent_only, cross_deposit, cross_withdraw, exceeds_free_margin,
}
use quantoxide.Trade.Executor.Open.{
  admit, admit_checked, admit_with, balance_delta, built_trade, create_running, create_with,
  evaluated_stoploss, opened, opening_cost,
}
use quantoxide.Trade.Executor.Transfer.{
  IsTransfer, cross_deposit-IsTransfer, cross_withdraw-IsTransfer,
}
use quantoxide.Trade.Executor.TriggerInvariant.{TriggerCovers}
use quantoxide.Trade.Executor.TriggerKept.{
  candle_update-TriggerCovers, close_running-TriggerCovers, create_running-TriggerCovers,
  quiet_closes_none,
}
use quantoxide.Trade.History.{empty_history, history_add}
use quantoxide.Trade.RunningMap.{Entry, add, empty_map, len, trades_desc}
use quantoxide.Trade.Simulated.{
  SimulatedTradeRunning, closed_at, closed_maintenance_margin, closed_pl, exit_price, is_closed,
  maintenance_margin, new_trade, to_closed, with_new_stoploss,
}
use quantoxide.Trade.Stoploss.{evaluate, fixed, initial_stoploss_price, trailing}
use quantoxide.Trade.Trigger.{
  PriceTrigger, bounds_of, eval_trigger_bounds, narrow, next_stoploss_update_trigger, not_set,
  optional_trigger, price_lt, price_max, price_min, set, stoploss_trigger_price, trigger_update,
  was_reached,
}
use quantoxide.Trade.Trigger.Coverage.{Covers, trigger_update-Covers}
use quantoxide.Trade.Trigger.Quiet.{StaysOpen}

abbrev cfg : SimulatedTradeExecutorConfig ⦃sdk = toy_sdk⦄
cfg = record { trade_max_running_qtd = 5; fee_perc = 0; trailing_stoploss_step_size = 1 }

abbrev start : SimulatedTradeExecutorState ⦃sdk = toy_sdk⦄
start = record {
  time = unix_epoch;
  market_price = pos 100;
  balance = pos 1000;
  last_trade_time = none;
  trigger = not_set;
  running_map = empty_map ⦃sdk = toy_sdk⦄;
  funding_fees = pos 0;
  realized_pl = pos 0;
  closed_history = empty_history ⦃sdk = toy_sdk⦄;
  closed_fees = 0;
  cross_position = record {
    margin = 100;
    leverage = 1;
    exposure = neutral;
    trading_fees = 0;
    session_funding_fees = pos 0;
    realized_pl = pos 0;
  };
}

abbrev pub after_open : SimulatedTradeExecutorState ⦃sdk = toy_sdk⦄
after_open =
    (create_running ⦃sdk = toy_sdk⦄ cfg start 1 buy true 1 (some (trailing 10)) none none).0

create_running-TriggerCovers_example : TriggerCovers ⦃sdk = toy_sdk⦄ cfg after_open
unfolding add admit admit_checked admit_with balance_delta bounds_of btree_insert built_trade
    create_running create_with eval_trigger_bounds evaluate evaluated_stoploss hash_insert
    initial_stoploss_price len maintenance_margin narrow new_trade next_stoploss_update_trigger
    opened opening_cost optional_trigger price_max price_min stoploss_trigger_price trigger_update
    wrap_i64 ◌+ℤ◌ ◌-ℤ◌
create_running-TriggerCovers_example =
    create_running-TriggerCovers ⦃sdk = toy_sdk⦄ toy_prices cfg start 1 buy true 1
      (some (trailing 10)) none none 1 refl tt

after_open-TriggerCovers : TriggerCovers ⦃sdk = toy_sdk⦄ cfg after_open
unfolding add admit admit_checked admit_with balance_delta bounds_of btree_insert built_trade
    create_running create_with eval_trigger_bounds evaluate evaluated_stoploss hash_insert
    initial_stoploss_price len maintenance_margin narrow new_trade next_stoploss_update_trigger
    opened opening_cost optional_trigger price_max price_min stoploss_trigger_price trigger_update
    wrap_i64 ◌+ℤ◌ ◌-ℤ◌
after_open-TriggerCovers =
    create_running-TriggerCovers ⦃sdk = toy_sdk⦄ toy_prices cfg start 1 buy true 1
      (some (trailing 10)) none none 1 refl tt

abbrev candle_of : ℤ → ℤ → OhlcCandleRow ⦃sdk = toy_sdk⦄
candle_of low high = record {
  time = unix_epoch + minute;
  open_price = low;
  high = high;
  low = low;
  close = high;
  volume = pos 7;
  created_at = unix_epoch;
  updated_at = unix_epoch;
  stable = true;
}

candle_update-TriggerCovers_example :
    TriggerCovers ⦃sdk = toy_sdk⦄ cfg
      (candle_update ⦃sdk = toy_sdk⦄ cfg after_open (candle_of (pos 110) (pos 150))).0
unfolding add add_closed admit admit_checked admit_with apply_amount_to_margin balance_delta
    book_closed bounds_of btree_insert built_trade candle_close_out candle_history candle_next
    candle_trade candle_trades candle_trades_update candle_update candle_update_with close_exposure
    close_on closed_at closed_maintenance_margin closed_pl create_running create_with
    cross_after_candle cross_close cross_new eval_trigger_bounds evaluate evaluated_stoploss exit_at
    exit_bounds exit_or_trail exit_price exit_price_in finish_candle hash_insert history_add
    initial_stoploss_price is_closed keep_running keep_trailed len liquidate liquidate_on
    liquidation_reached liquidation_reached_on maintenance_margin narrow new_trade
    next_stoploss_update_trigger opened opening_cost optional_trigger pl_floor price_lt price_max
    price_min proceeds quiet_candle set_stoploss start_tally stoploss_trigger_price tick_round
    to_closed trades_desc trail trailed_stoploss trigger_update was_reached with_new_stoploss
    wrap_i64 ◌+ℤ◌ ◌-ℤ◌
candle_update-TriggerCovers_example =
    candle_update-TriggerCovers ⦃sdk = toy_sdk⦄ toy_prices cfg after_open
      (candle_of (pos 110) (pos 150)) refl after_open-TriggerCovers

-- A short is opened as well, which is still there after the long is closed.
abbrev after_both : SimulatedTradeExecutorState ⦃sdk = toy_sdk⦄
after_both =
    (create_running ⦃sdk = toy_sdk⦄ cfg after_open 2 sell true 1 (some (fixed 110)) none none).0

close_running-TriggerCovers_example :
    TriggerCovers ⦃sdk = toy_sdk⦄ cfg (close_running ⦃sdk = toy_sdk⦄ cfg after_both (side_of buy)).0
unfolding add add_closed admit admit_checked admit_with balance_delta book_closed bounds_of
    btree_insert built_trade close_at close_history close_out close_running close_trade close_trades
    closed_at closed_maintenance_margin closed_pl create_running create_with eval_trigger_bounds
    evaluate evaluated_stoploss exit_price finish_close hash_insert history_add
    initial_stoploss_price is_closed keep_running len maintenance_margin narrow new_trade
    next_stoploss_update_trigger opened opening_cost optional_trigger price_max price_min proceeds
    should_be_closed start_tally stoploss_trigger_price to_closed trades_desc trigger_update
    wrap_i64 ◌+ℤ◌ ◌-ℤ◌
close_running-TriggerCovers_example =
    close_running-TriggerCovers ⦃sdk = toy_sdk⦄ toy_prices cfg after_both (side_of buy) (1 ∷ [])
      refl

-- The same with a stoploss that stays at 90.
abbrev after_fixed : SimulatedTradeExecutorState ⦃sdk = toy_sdk⦄
after_fixed = (create_running ⦃sdk = toy_sdk⦄ cfg start 1 buy true 1 (some (fixed 90)) none none).0

after_fixed-TriggerCovers : TriggerCovers ⦃sdk = toy_sdk⦄ cfg after_fixed
unfolding add admit admit_checked admit_with balance_delta bounds_of btree_insert built_trade
    create_running create_with eval_trigger_bounds evaluate evaluated_stoploss hash_insert
    initial_stoploss_price len maintenance_margin narrow new_trade next_stoploss_update_trigger
    opened opening_cost optional_trigger price_max price_min stoploss_trigger_price trigger_update
    wrap_i64 ◌+ℤ◌ ◌-ℤ◌
after_fixed-TriggerCovers =
    create_running-TriggerCovers ⦃sdk = toy_sdk⦄ toy_prices cfg start 1 buy true 1 (some (fixed 90))
      none none 1 refl tt

quiet_closes_none_example :
    All
      (λ (e : Key × Entry ⦃sdk = toy_sdk⦄).
        (exit_price_in ⦃sdk = toy_sdk⦄ e.1.0 (candle_of (pos 95) (pos 99)) ≡ none)
        × StaysOpen ⦃sdk = toy_sdk⦄ e.1.0 (pos 95) (pos 99))
      after_fixed.running_map.trades
unfolding add admit admit_checked admit_with balance_delta bounds_of btree_insert built_trade
    create_running create_with eval_trigger_bounds evaluate evaluated_stoploss hash_insert
    initial_stoploss_price len maintenance_margin narrow new_trade next_stoploss_update_trigger
    opened opening_cost optional_trigger price_max price_min stoploss_trigger_price trigger_update
    was_reached wrap_i64 ◌+ℤ◌ ◌-ℤ◌
quiet_closes_none_example =
    quiet_closes_none ⦃sdk = toy_sdk⦄ toy_prices cfg after_fixed (candle_of (pos 95) (pos 99))
      after_fixed-TriggerCovers refl refl

-- A long of one unit with a stoploss at 90.
abbrev long : SimulatedTradeRunning ⦃sdk = toy_sdk⦄
long = record {
  id = 1;
  side = buy;
  opening_fee = 1;
  closing_fee_reserved = 1;
  quantity = true;
  margin = 10;
  leverage = 1;
  price = 100;
  liquidation = 80;
  stoploss = some 90;
  takeprofit = none;
  entry_time = unix_epoch;
  entry_price = 100;
  client_id = none;
}

abbrev long_trigger : PriceTrigger ⦃sdk = toy_sdk⦄
long_trigger = set 90 1000000

-- A short of one unit with a stoploss at 110.
abbrev short : SimulatedTradeRunning ⦃sdk = toy_sdk⦄
short = record long { id = 2; side = sell; liquidation = 120; stoploss = some 110 }

long-Covers : Covers ⦃sdk = toy_sdk⦄ 1 long_trigger (long, none)
unfolding bounds_of eval_trigger_bounds narrow next_stoploss_update_trigger optional_trigger
    price_max price_min stoploss_trigger_price trigger_update ◌+ℤ◌ ◌-ℤ◌
long-Covers = (trigger_update-Covers ⦃sdk = toy_sdk⦄ toy_prices not_set 1 long none refl).0

abbrev after_deposit : SimulatedTradeExecutorState ⦃sdk = toy_sdk⦄
after_deposit = record start {
  balance = pos 970;
  cross_position = record (start.cross_position) { margin = 130 };
}

cross_deposit-IsTransfer_example :
    IsTransfer ⦃sdk = toy_sdk⦄ start after_deposit (after_deposit.cross_position)
unfolding coherent_exposure coherent_only cross_deposit cross_new est_free_margin est_running_pl
    is_coherent is_liquid maintenance_margin_of pl_floor price_lt running_margin_of running_pl_of
    with_margin wrap_i64 ◌+ℤ◌ ◌-ℤ◌
cross_deposit-IsTransfer_example =
    cross_deposit-IsTransfer ⦃sdk = toy_sdk⦄ start after_deposit (after_deposit.cross_position) 30
      (omega arith, omega arith) refl

cross_withdraw-IsTransfer_example :
    IsTransfer ⦃sdk = toy_sdk⦄ after_deposit start (start.cross_position) × (30 ≤ 130)
unfolding coherent_exposure coherent_only cross_new cross_quantity cross_withdraw est_free_margin
    est_running_pl exceeds_free_margin exposure_signed is_coherent is_liquid maintenance_margin_of
    pl_floor price_lt running_margin_of running_pl_of signed_quantity with_margin wrap_i64 ◌+ℤ◌ ◌-ℤ◌
cross_withdraw-IsTransfer_example =
    cross_withdraw-IsTransfer ⦃sdk = toy_sdk⦄ after_deposit start (start.cross_position) 30 refl
