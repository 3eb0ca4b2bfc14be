-- ===== src/MarketData.antt =====
-- crates/marketdata, and its use in crates/gateway/src/main.rs.
pub mod SnapshotBuilder
pub mod Consumer
mod Examples
