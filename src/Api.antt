-- ===== src/Api.antt =====
-- short_trading_bot/api: the parts of the dashboard's server that are modelled.
pub mod Throttle
