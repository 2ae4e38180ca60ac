-- ===== src/Risk.antt =====
-- The risk component, src/ai_trading_team/risk.
pub mod Types
pub mod Reasons
pub mod Proposal
pub mod Account
pub mod Sizing
pub mod Engine
pub mod Examples
