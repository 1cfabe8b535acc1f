-- ===== src/Trade.antt =====
-- Trading: the code that the live and the simulated executors share (src/trade/core.rs), and the
-- simulated executor of the backtests (src/trade/backtest/executor).
pub mod Live
pub mod Error
pub mod Simulated
pub mod TradingState
pub mod Stoploss
pub mod Trigger
pub mod Cross
pub mod OrderRequest
pub mod RunningMap
pub mod History
pub mod Consolidator
pub mod Executor
