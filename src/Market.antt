-- ===== src/Market.antt =====
-- short_trading_bot/market: the part of the market data that is computed without floats.
pub mod BarBuilder
