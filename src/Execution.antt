-- ===== src/Execution.antt =====
-- Execution on a demo account, src/ai_trading_team/execution.
pub mod Types
pub mod Records
pub mod Terminal
pub mod Reconciliation
pub mod Lifecycle
pub mod Store
pub mod Preflight
pub mod Service
pub mod Sqlite
pub mod Authority
pub mod Guard
mod Examples
