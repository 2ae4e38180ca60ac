-- ===== src/Budget.antt =====
-- The AI budget, src/ai_trading_team/runtime/budget.py and src/ai_trading_team/storage/ai_budget.py.
pub mod Types
pub mod Ledger
pub mod Guard
pub mod Run
pub mod Sqlite
pub mod Examples
