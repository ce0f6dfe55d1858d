-- ===== src/Risk.antt =====
-- short_trading_bot/risk: the gate before every order, remote control and the request limit.
pub mod Control
pub mod Manager
pub mod ControlFile
pub mod RateLimit
