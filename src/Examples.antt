-- ===== src/Examples.antt =====
-- The theorems at concrete inputs, and runs of the code.
pub mod Lots
pub mod Orders
pub mod Polls
pub mod Rates
pub mod Commands
pub mod Recovery
pub mod Simulation
pub mod Service
pub mod Feeds
pub mod Watchlist
