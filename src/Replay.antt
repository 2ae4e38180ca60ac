-- ===== src/Replay.antt =====
-- The replay of history, src/ai_trading_team/replay.
pub mod Clock
pub mod Source
mod Examples
