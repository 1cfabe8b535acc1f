-- ===== src/Trade/Executor/Funding.antt =====
-- `SimulatedTradeExecutor::apply_funding_settlement`.
use quantoxide.Db.{FundingSettlementRow}
use quantoxide.Prelude.{
  Bool, List, Option, Result, [], err, if◌then◌else◌, map_err, none, ok, some, ◌&&◌, ◌==◌, ◌>>=◌,
  ◌∷◌,
}
use quantoxide.Prelude.Int.{ltb_ℤ, neg_part, pos, pos_part, ℤ}
use quantoxide.Prelude.Machine.{i64_add, i64_sub}
use quantoxide.Prelude.Maps.{Key}
use quantoxide.Sdk.{Sdk}
use quantoxide.Time.{DateTime}
use quantoxide.Trade.Cross.{SimulatedCrossPosition, cross_quantity}
use quantoxide.Trade.Cross.Funding.{cross_funding_settlement}
use quantoxide.Trade.Error.{SimulatedTradeExecutorError, invalid_market_price}
use quantoxide.Trade.Executor.{
  Outcome, SimulatedTradeExecutorConfig, SimulatedTradeExecutorState, Tally, add_closed,
  book_closed, keep_running, proceeds, start_tally,
}
use quantoxide.Trade.History.{ClosedTradeHistory}
use quantoxide.Trade.RunningMap.{Entry, is_empty, trades_desc}
use quantoxide.Trade.Simulated.{SimulatedTradeRunning, to_closed, trade_funding_settlement}
use quantoxide.Trade.Stoploss.{TradeTrailingStoploss}

module _ ⦃sdk : Sdk⦄ where
  open sdk use {F64, price_round}

  -- The trade goes on; revenue is paid to the balance.
  pub settle_kept :
      SimulatedTradeExecutorConfig
      → Tally
      → SimulatedTradeRunning
      → Option TradeTrailingStoploss
      → ℤ
      → Result Tally SimulatedTradeExecutorError
  settle_kept cfg a t tsl funding_fee =
      keep_running cfg
        (if ltb_ℤ funding_fee (pos 0)
          then record a { new_balance = i64_sub a.new_balance funding_fee }
          else a)
        t tsl

  -- The trade cannot be represented any more: it is closed at the market price.
  pub settle_closed :
      SimulatedTradeExecutorConfig
      → F64
      → DateTime
      → Tally
      → SimulatedTradeRunning
      → ℤ
      → Result Tally SimulatedTradeExecutorError
  settle_closed cfg market_price time a t funding_fee = do
    closing_price ← map_err invalid_market_price (price_round market_price)
    let c = to_closed t cfg.fee_perc time closing_price
    let booked = book_closed a c (some time)
    ok (record booked { new_balance = i64_add a.new_balance (i64_sub (proceeds c) funding_fee) })

  pub settle_outcome :
      SimulatedTradeExecutorConfig
      → F64
      → DateTime
      → Tally
      → Entry
      → Option SimulatedTradeRunning × ℤ
      → Result Tally SimulatedTradeExecutorError
  settle_outcome cfg market_price time a (t, tsl) (updated, funding_fee) =
      let charged = record a { new_funding_fees = i64_add a.new_funding_fees funding_fee } in
      elim updated [
        | some updated_trade ↦ settle_kept cfg charged updated_trade tsl funding_fee
        | none ↦ settle_closed cfg market_price time charged t funding_fee
      ]

  pub settle_trade :
      SimulatedTradeExecutorConfig
      → F64
      → FundingSettlementRow
      → Tally
      → Entry
      → Result Tally SimulatedTradeExecutorError
  settle_trade cfg market_price settlement a (t, tsl) = do
    outcome ← trade_funding_settlement t settlement
    settle_outcome cfg market_price settlement.time a (t, tsl) outcome

  pub settle_trades :
      SimulatedTradeExecutorConfig
      → F64
      → FundingSettlementRow
      → Tally
      → List (Key × Entry)
      → Result Tally SimulatedTradeExecutorError
  settle_trades cfg market_price settlement a [] = ok a
  settle_trades cfg market_price settlement a ((k, e) ∷ es) = do
    a' ← settle_trade cfg market_price settlement a e
    settle_trades cfg market_price settlement a' es

  pub finish_funding :
      SimulatedTradeExecutorState
      → DateTime
      → Tally
      → ClosedTradeHistory
      → SimulatedCrossPosition × ℤ × Bool
      → SimulatedTradeExecutorState
  finish_funding s time a history (cross_position, _, forced) = record s {
    balance = a.new_balance;
    last_trade_time = if forced then some time else a.new_last_trade_time;
    trigger = a.new_trigger;
    running_map = a.new_running_map;
    funding_fees = a.new_funding_fees;
    realized_pl = a.new_realized_pl;
    closed_history = history;
    closed_fees = a.new_closed_fees;
    cross_position = cross_position;
  }

  -- The history is written before the cross position is settled, and stays written if that fails.
  pub settle_cross :
      SimulatedTradeExecutorState
      → DateTime
      → Tally
      → ClosedTradeHistory
      → Result (SimulatedCrossPosition × ℤ × Bool) SimulatedTradeExecutorError
      → Outcome (Unit {0})
  settle_cross s time a history (ok outcome) = (finish_funding s time a history outcome, ok tt)
  settle_cross s time a history (err e) = (record s { closed_history = history }, err e)

  pub settle_history :
      SimulatedTradeExecutorConfig
      → SimulatedTradeExecutorState
      → FundingSettlementRow
      → Tally
      → ClosedTradeHistory × Result (Unit {0}) SimulatedTradeExecutorError
      → Outcome (Unit {0})
  settle_history cfg s settlement a (history, ok _) =
      settle_cross s settlement.time a history
        (cross_funding_settlement s.cross_position s.market_price settlement cfg.fee_perc)
  settle_history cfg s settlement a (history, err e) =
      (record s { closed_history = history }, err e)

  pub settle_out :
      SimulatedTradeExecutorConfig
      → SimulatedTradeExecutorState
      → FundingSettlementRow
      → Result Tally SimulatedTradeExecutorError
      → Outcome (Unit {0})
  settle_out cfg s settlement (err e) = (s, err e)
  settle_out cfg s settlement (ok a) =
      settle_history cfg s settlement a (add_closed s.closed_history a.closed_trades)

  abbrev pub is_zero : ℤ → Bool
  is_zero z = pos_part z == 0 && neg_part z == 0

  pub apply_funding_settlement :
      SimulatedTradeExecutorConfig
      → SimulatedTradeExecutorState
      → FundingSettlementRow
      → Outcome (Unit {0})
  apply_funding_settlement cfg s settlement =
      if is_empty s.running_map && is_zero (cross_quantity s.cross_position)
      then (s, ok tt)
      else settle_out cfg s settlement (
          settle_trades cfg s.market_price settlement (start_tally s s.last_trade_time)
            (trades_desc s.running_map))
