-- ===== src/Execution/Paper.antt =====
-- short_trading_bot/execution/broker/paper.py: the simulated broker. Amounts and quantities are
-- counted in fixed smallest units, `share` of them in one share; the divisions of `Decimal` are
-- parameters: `portion x b` is `x * b / 10000`, `part q n` is `q / n`, and `quot` is that of an
-- average price. A slippage is at most 10000 basis points. The fills that the broker hands to its
-- `fill_handler` are its output.
pub mod State
pub mod Fills
pub mod Desk
pub mod Chunks
pub mod Ledger
pub mod Funds
