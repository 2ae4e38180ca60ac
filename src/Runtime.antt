-- ===== src/Runtime.antt =====
-- The single-agent router of src/ai_trading_team/runtime.
pub mod Types
pub mod Compatibility
pub mod Router
pub mod Telemetry
pub mod Invoke
pub mod Closed
pub mod Overrun
mod Examples
