-- ===== src/Trade/TradingState.antt =====
-- `TradingState` of src/trade/core.rs, over the state of the simulated executor. Its statistics are
-- computed when they are first asked for and kept, which changes no value.
pub mod Sums
use Prim.Native.Nat.{min}
use quantoxide.Prelude.{List, Option, [], ℕ, ◌+◌, ◌-◌, ◌∷◌}
use quantoxide.Prelude.Int.{pos, pos_part, ℤ}
use quantoxide.Prelude.Machine.{as_i64, i64_add, i64_sub, u64_add, u64_mod}
use quantoxide.Prelude.Maps.{Key}
use quantoxide.Sdk.{Sdk, TradeSide, buy, sell}
use quantoxide.Time.{DateTime}
use quantoxide.Trade.Cross.{SimulatedCrossPosition, est_net_value, saturating_add_signed}
use quantoxide.Trade.Executor.{SimulatedTradeExecutorState}
use quantoxide.Trade.History.{ClosedTradeHistory}
use quantoxide.Trade.RunningMap.{Entry, RunningTradesMap, trades_desc}
use quantoxide.Trade.Simulated.{SimulatedTradeRunning, est_pl, maintenance_margin}

module _ ⦃sdk : Sdk⦄ where
  open sdk use {f64_floor, f64_as_i64, Price, price_bounded, margin_as_u64, quantity_as_u64}

  pub record TradingState : Type 0 where
    pub last_tick_time : DateTime
    pub balance : ℕ
    pub market_price : Price
    pub last_trade_time : Option DateTime
    pub running_map : RunningTradesMap
    pub funding_fees : ℤ
    pub realized_pl : ℤ
    pub closed_history : ClosedTradeHistory
    pub closed_fees : ℕ
    pub cross_position : SimulatedCrossPosition

  pub record RunningStats : Type 0 where
    pub long_len : ℕ
    pub long_margin : ℕ
    pub long_quantity : ℕ
    pub short_len : ℕ
    pub short_margin : ℕ
    pub short_quantity : ℕ
    pub pl : ℤ
    pub fees : ℕ

  abbrev pub no_stats : RunningStats
  no_stats = record {
    long_len = 0;
    long_margin = 0;
    long_quantity = 0;
    short_len = 0;
    short_margin = 0;
    short_quantity = 0;
    pl = pos 0;
    fees = 0;
  }

  -- The margin with the reserve, where that is not negative.
  pub locked_margin : SimulatedTradeRunning → ℕ
  locked_margin t = u64_add (margin_as_u64 t.margin) (pos_part (maintenance_margin t))

  pub count_side : TradeSide → RunningStats → SimulatedTradeRunning → RunningStats
  count_side buy s t = record s {
    long_len = u64_add s.long_len 1;
    long_margin = u64_add s.long_margin (locked_margin t);
    long_quantity = u64_add s.long_quantity (quantity_as_u64 t.quantity);
  }
  count_side sell s t = record s {
    short_len = u64_add s.short_len 1;
    short_margin = u64_add s.short_margin (locked_margin t);
    short_quantity = u64_add s.short_quantity (quantity_as_u64 t.quantity);
  }

  pub count_trade : Price → RunningStats → SimulatedTradeRunning → RunningStats
  count_trade market_price s t =
      let counted = count_side t.side s t in
      record counted {
        pl = i64_add counted.pl (f64_as_i64 (f64_floor (est_pl t market_price)));
        fees = u64_add counted.fees t.opening_fee;
      }

  pub count_trades : Price → RunningStats → List (Key × Entry) → RunningStats
  count_trades market_price s [] = s
  count_trades market_price s ((k, (t, tsl)) ∷ es) =
      count_trades market_price (count_trade market_price s t) es

  pub get_running_stats : TradingState → RunningStats
  get_running_stats s = count_trades s.market_price no_stats (trades_desc s.running_map)

  abbrev pub u64_saturating_add : ℕ → ℕ → ℕ
  u64_saturating_add a b = min (a + b) (u64_mod - 1)

  pub running_margin : TradingState → ℕ
  running_margin s = u64_add (get_running_stats s).long_margin (get_running_stats s).short_margin

  pub running_quantity : TradingState → ℕ
  running_quantity s =
      u64_add (get_running_stats s).long_quantity (get_running_stats s).short_quantity

  pub running_pl : TradingState → ℤ
  running_pl s = (get_running_stats s).pl

  pub running_fees : TradingState → ℕ
  running_fees s = (get_running_stats s).fees

  pub total_net_value : TradingState → ℕ
  total_net_value s =
      u64_saturating_add
        (saturating_add_signed (u64_saturating_add s.balance (running_margin s)) (running_pl s))
        (est_net_value s.cross_position s.market_price)

  pub closed_net_pl : TradingState → ℤ
  closed_net_pl s = i64_sub s.realized_pl (as_i64 s.closed_fees)

  pub total_pl : TradingState → ℤ
  total_pl s = i64_add (running_pl s) s.realized_pl

  pub total_fees : TradingState → ℕ
  total_fees s = u64_add (running_fees s) s.closed_fees

  -- `SimulatedTradeExecutor::trading_state`
  pub trading_state : SimulatedTradeExecutorState → TradingState
  trading_state s = record {
    last_tick_time = s.time;
    balance = pos_part s.balance;
    market_price = price_bounded s.market_price;
    last_trade_time = s.last_trade_time;
    running_map = s.running_map;
    funding_fees = s.funding_fees;
    realized_pl = s.realized_pl;
    closed_history = s.closed_history;
    closed_fees = s.closed_fees;
    cross_position = s.cross_position;
  }
