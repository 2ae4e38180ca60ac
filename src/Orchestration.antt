-- ===== src/Orchestration.antt =====
-- Policies of orchestration, src/ai_trading_team/orchestration.
pub mod Failures
pub mod Debate
mod Examples
