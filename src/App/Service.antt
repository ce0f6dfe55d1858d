-- ===== src/App/Service.antt =====
-- short_trading_bot/app/service.py: the engine that holds the lots, sends their orders and takes in
-- the fills. Its memory and the database are one state, `World`; an `await` is a point where the
-- answer comes from outside: the broker's response to a request, and the fills that a poll delivers.
pub mod State
pub mod Restore
pub mod Books
pub mod Handler
pub mod Polling
pub mod Orders
pub mod Startup
pub mod Intents
pub mod Watchlist
