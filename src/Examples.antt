-- ===== src/Examples.antt =====
-- A concrete stand-in for the `lnm-sdk` crate, and the theorems at concrete inputs.
pub mod ToySdk
mod ToyLaws
mod Calendar
mod Cross
mod Executor
mod Funding
mod History
mod Live
mod Orders
mod Candles
mod Status
