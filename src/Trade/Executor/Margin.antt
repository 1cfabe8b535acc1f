-- ===== src/Trade/Executor/Margin.antt =====
-- `isolated_trade_add_margin` and `isolated_trade_cash_in` of the simulated executor.
use quantoxide.Prelude.{Option, Result, err, if◌then◌else◌, ok, ok_or, ℕ, ◌>>=◌}
use quantoxide.Prelude.Int.{ltb_ℤ}
use quantoxide.Prelude.Machine.{as_i64, i64_add, i64_sub}
use quantoxide.Sdk.{Sdk}
use quantoxide.Trade.Error.{SimulatedTradeExecutorError, balance_too_low, trade_not_running}
use quantoxide.Trade.Executor.{Outcome, SimulatedTradeExecutorState, commit}
use quantoxide.Trade.RunningMap.{Entry, get_by_id, set_by_id}
use quantoxide.Trade.Simulated.{est_pl, with_added_margin, with_cash_in}

module _ ⦃sdk : Sdk⦄ where
  open sdk use {f64_round, f64_as_i64, price_bounded}

  pub found : ℕ → Option Entry → Result Entry SimulatedTradeExecutorError
  found trade_id e = ok_or e (trade_not_running trade_id)

  pub isolated_trade_add_margin : SimulatedTradeExecutorState → ℕ → ℕ → Outcome (Unit {0})
  isolated_trade_add_margin s trade_id amount =
      if ltb_ℤ s.balance (as_i64 amount)
      then (s, err balance_too_low)
      else commit s (do
        (t, tsl) ← found trade_id (get_by_id s.running_map trade_id)
        t' ← with_added_margin t amount
        ok (
          record s {
            running_map = set_by_id s.running_map trade_id (t', tsl);
            balance = i64_sub s.balance (as_i64 amount);
          },
          tt,
        ))

  pub isolated_trade_cash_in : SimulatedTradeExecutorState → ℕ → ℕ → Outcome (Unit {0})
  isolated_trade_cash_in s trade_id amount = commit s (do
    (t, tsl) ← found trade_id (get_by_id s.running_map trade_id)
    t' ← with_cash_in t (price_bounded s.market_price) amount
    let cashed_in_pl = f64_as_i64 (f64_round (est_pl t t'.price))
    ok (
      record s {
        running_map = set_by_id s.running_map trade_id (t', tsl);
        balance = i64_add s.balance (as_i64 amount);
        realized_pl = i64_add s.realized_pl cashed_in_pl;
      },
      tt,
    ))
