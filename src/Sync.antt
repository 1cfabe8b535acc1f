-- ===== src/Sync.antt =====
-- src/sync: what is stored of the history, and what is to be fetched next.
pub mod PriceHistory
pub mod FundingSettlements
pub mod FundingTask
pub mod CandlePage
pub mod PriceTask
pub mod Step
