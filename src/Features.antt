-- ===== src/Features.antt =====
-- The deterministic features of src/ai_trading_team/features.
pub mod Candles
pub mod Structure
mod Examples
