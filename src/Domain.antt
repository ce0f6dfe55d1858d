-- ===== src/Domain.antt =====
-- short_trading_bot/domain: the enumerations, signals, the position lot and the campaign.
pub mod Enums
pub mod Signal
pub mod Position
