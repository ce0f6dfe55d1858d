-- ===== src/Execution/OrderManager/Projection.antt =====
-- The row of a position follows the lot: the projection that the order manager keeps in the database
-- and the lot in memory compute the same figures from the same fill.
use short_trading_bot.Base.{ℕ, ◌<◌, ◌≡◌, ◌≢◌, ◌⊎◌, Bool, arith}
use short_trading_bot.Domain.Enums.{
  Side, buy, sell, PositionState, watching, holding, scaling, cancelled,
}
use short_trading_bot.Domain.Position.{Lot, LotFill, apply_fill}
use short_trading_bot.Execution.Types.{Fill}
use short_trading_bot.Execution.Store.{PositionRow}
use short_trading_bot.Execution.OrderManager.{project}

-- The row and the lot show the same figures.
pub record Agrees (lot : Lot) (pos : PositionRow) : Type 0 where
  pub same_qty : pos.qty_filled ≡ lot.qty
  pub same_avg : pos.avg_entry_price ≡ lot.avg_entry
  pub same_pnl : pos.realized_pnl ≡ lot.realized_pnl

-- the fill as the lot receives it
abbrev pub to_lot : Side → Bool → Fill → LotFill
to_lot side is_add f = record {
  side = side;
  qty = f.qty;
  price = f.price;
  fee = f.fee;
  tax = f.tax;
  is_add = is_add;
}

-- The row's state is the lot's, except that the row stays at HOLDING where the lot is SCALING.
abbrev pub Follows : PositionState → PositionState → Type 0
Follows row lot = (row ≡ lot) ⊎ ((row ≡ holding) × (lot ≡ scaling))

module _ (quot : ℕ → ℕ → ℕ) (now : ℕ) where
  -- The same fill keeps the figures equal, also where the lot's state machine refuses it.
  pub project-Agrees :
      (side : Side) (is_add : Bool) (f : Fill) (lot : Lot) (pos : PositionRow)
      → Agrees lot pos
      → Agrees (apply_fill quot (to_lot side is_add f) lot).0 (project quot now side f pos)
  unfolding apply_fill project
  project-Agrees buy is_add f lot pos h = ground arith
  project-Agrees sell is_add f lot pos h = ground arith

  -- A fill of some shares, which is no sale from a lot that waits for its entry or was cancelled,
  -- keeps the states equal, where HOLDING in the row also stands for SCALING in memory.
  pub project-Follows :
      (side : Side) (is_add : Bool) (f : Fill) (lot : Lot) (pos : PositionRow)
      → Agrees lot pos
      → 0 < f.qty
      → (side ≡ sell → (lot.state ≢ watching) × (lot.state ≢ cancelled))
      → Follows pos.state lot.state
      → Follows
          (project quot now side f pos).state
          (apply_fill quot (to_lot side is_add f) lot).0.state
  unfolding apply_fill project
  project-Follows buy is_add f lot pos h p s e = ground arith
  project-Follows sell is_add f lot pos h p s e = ground arith
