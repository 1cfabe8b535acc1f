-- ===== src/Lib.antt =====
-- quantoxide is a framework for backtesting and live trading of Bitcoin futures. This library
-- models its simulated exchange and the code around it, and states what makes each part correct.
--
-- The parts and their files:
-- - src/trade/backtest/executor/mod.rs, SimulatedTradeExecutor: Trade/Executor.antt (state, `new`,
--   update_time) and its children Candle (candle_update), Funding (apply_funding_settlement), Close
--   (close_running and the close orders), Open (create_running), Margin (add_margin, cash_in) and
--   CrossAccount (deposits, withdrawals, leverage, market orders). An operation maps a state to a
--   state and a result; the mutex is held throughout each, so operations are the steps. An error
--   comes with the state as the code leaves it, and writes that came before an early return are
--   kept.
-- - src/trade/backtest/executor/models.rs: Trade/Cross.antt with Cross/Order and Cross/Funding
--   (SimulatedCrossPosition), Trade/Simulated.antt (SimulatedTradeRunning, SimulatedTradeClosed).
-- - src/trade/core.rs: Trade/RunningMap.antt, Trade/History.antt, Trade/Stoploss.antt and
--   Trade/Trigger.antt (the running trades, the closed ones, stoplosses, price triggers and
--   TradeRunningExt); Trade/OrderRequest.antt (the order requests; which of them are refused is in
--   OrderRequest/Validation), Trade/Cross/Estimate.antt (the estimates of CrossPositionCore for
--   another exposure) and Trade/TradingState.antt (TradingState, its statistics, and the executor's
--   trading_state).
-- - src/trade/live/executor/state/live_trading_session.rs: Trade/Live.antt with Live/CrossPosition
--   (LiveCrossPosition) and Live/Session (LiveTradingSession), whose children Update
--   (update_running_trades), Close (close_trades), Reevaluate (reevaluate and the refresh of the
--   cross position) and Start (new) hold its operations. The answers of the exchange, the database
--   and the clock are arguments. src/trade/live/executor/state/mod.rs: Live/ExecutorState (the
--   status of the executor and the session it holds).
-- - src/trade/backtest/consolidator.rs: Trade/Consolidator.antt with Consolidator/New; Bucket,
--   Buffer and Order beside it are about its candles.
-- - src/shared/mod.rs: Shared.antt. src/util/dates/mod.rs: Dates.antt and Dates/Funding.antt.
-- - src/sync/process/sync_price_history_task/price_history_state.rs: Sync/PriceHistory.antt.
-- - src/sync/process/sync_price_history_task/mod.rs: Sync/CandlePage.antt (the request of a page of
--   candles, its retries and checks) and Sync/PriceTask.antt (SyncPriceHistoryTask: the download,
--   the backfill and the live loop). The tables and the API are a parameter, the record
--   CandleStore.
-- - src/sync/process/sync_funding_settlements_task: Sync/FundingSettlements.antt
--   (FundingSettlementsState) and Sync/FundingTask.antt (SyncFundingSettlementsTask: the request of
--   a page with its retries, the download and the backfill). The table and the API are a parameter,
--   the record SettlementStore; Sync/Step.antt is the monad of their steps, in which an error keeps
--   the table.
-- - src/db/models.rs: Db.antt. The variants of the error types that the code returns:
--   Trade/Error.antt.
--
-- The executor owns one cross position, a map of running isolated trades with their trailing
-- stoplosses, a history of closed trades and a price trigger, the pair of prices outside of which
-- some trade may have to change. The candle update returns early while the trigger is not reached;
-- what that relies on is the invariant TriggerCovers of Trade/Executor/TriggerInvariant.antt, the
-- subject of the files TriggerKept and Quiet beside it and of Trade/Trigger/Quiet.antt.
-- Trade/Cross/NetQuantity and OrderEffect follow the net quantity through a market order,
-- Trade/Cross/Accounting the books of a close, Trade/Cross/FundingEffect a funding settlement, and
-- Trade/Executor/Transfer the money between balance and cross margin. Trade/Cross/EstimateAgrees
-- compares the estimate of an entry price with what a market order makes. A live session relies on
-- the same trigger: Live/Session/Reached gathers its operations in a step relation, TriggerKept and
-- Quiet are the invariant and its use, Transfer, Expiry, Started and Funding are about what its
-- operations move; Live/ExecutorState/Ready follows the status of the executor. For the
-- settlements, Group, Scan and Reach under Sync/FundingSettlements, and Fetch, Exclude, GivenUp and
-- Backfill under Sync/FundingTask, follow a missing time from the scan of the table to the page
-- that stores it.
--
-- The crate lnm-sdk and f64 are parameters: the record Sdk (Sdk.antt, Float.antt) has their types
-- and functions, the records LiveSdk and CollateralSdk have those that only the live session and
-- the estimates use, and Sdk/Laws.antt the documented behaviour that theorems take as hypotheses.
-- Examples/ToySdk.antt is a concrete stand-in with which Examples/ applies the theorems to concrete
-- inputs. chrono's DateTime<Utc> is the number of nanoseconds since MIN_UTC (Time.antt),
-- identifiers are numbers, and an id that the code draws is an argument.
--
-- An i64 is an integer with the wrap-around of a release build, a u64 a number below 2 ^ 64
-- (Prelude/Machine.antt); checked operations return an Option. A BTreeMap is a list in the order of
-- its keys and a HashMap an association list (Prelude/Maps.antt). Loops are structural recursion on
-- the list they walk, with two exceptions: the retries of fetch_page and fetch_candles recurse on
-- the trials that are left, which the source counts as well, and the turns of the loops of the two
-- download tasks are a list, one element for what the table and the API answer in that turn, since
-- the loop of the source ends only when they let it.
--
-- Not modelled: the engines and tasks that wait for the network, the database or the terminal, the
-- requests of the live executor, signal evaluators, Display texts, and queries of the database that
-- fail, in the download tasks and the live session.
pub mod Prelude
pub mod Float
pub mod Sdk
pub mod Time
pub mod Db
pub mod Shared
pub mod Dates
pub mod Sync
pub mod Trade
pub mod Examples
