-- ===== src/App.antt =====
-- short_trading_bot/app: what the engine process runs.
pub mod Service
