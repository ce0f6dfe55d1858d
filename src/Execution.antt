-- ===== src/Execution.antt =====
-- short_trading_bot/execution: orders, fills and the account.
pub mod Types
pub mod Store
pub mod Session
pub mod OrderManager
pub mod FillPoller
pub mod TickSize
pub mod PollGate
pub mod UnknownResolver
pub mod Paper
pub mod Routing
pub mod Fx
pub mod Reconciler
