-- ===== src/App/Service/Startup/Replay.antt =====
-- The profit of the day after a restart is the one that the lot in memory would have counted.
use short_trading_bot.Base.{ℕ, ◌≤◌, Bool, Option, some, List, [], ◌∷◌, ◌==◌, if◌then◌else◌, or_else}
use short_trading_bot.Base.Int.{ℤ, pos, ◌+ℤ◌, ◌-ℤ◌}
use short_trading_bot.Domain.Enums.{Side}
use short_trading_bot.Domain.Position.{Lot, LotFill, apply_fill}
use short_trading_bot.Execution.Types.{Fill}
use short_trading_bot.Execution.Store.{Order, FillRow}
use short_trading_bot.Execution.Session.{kst_date}
use short_trading_bot.Execution.OrderManager.{fill_row}
use short_trading_bot.App.Service.Handler.{counts_today}

-- A fill that the engine took in, with the row of its order, whether it added to the lot, and the
-- time. Before the fill the running total of the day was set back if the day had changed.
pub record Taken : Type 0 where
  pub fill : Fill
  pub order : Order
  pub is_add : Bool
  pub at : ℕ

-- the row that `handle_fill` wrote, with the side of the order
abbrev pub written : Taken → FillRow × Side
written t = (fill_row t.at t.order t.fill, t.order.side)

-- the fill as the lot received it
abbrev pub received : Taken → LotFill
received t = record {
  side = t.order.side;
  qty = t.fill.qty;
  price = t.fill.price;
  fee = t.fill.fee;
  tax = t.fill.tax;
  is_add = t.is_add;
}

abbrev row_fill : Bool → Side → FillRow → LotFill
row_fill is_add side r = record {
  side = side;
  qty = r.qty;
  price = r.price;
  fee = r.fee;
  tax = r.tax;
  is_add = is_add;
}

-- the day that the engine counts for and the profit of that day
abbrev pub DayTotal : Type 0
DayTotal = ℕ × ℤ

-- the first bar of a new day sets the total back
abbrev pub on_day : ℕ → DayTotal → DayTotal
on_day day (d, total) = if d == day then (d, total) else (day, pos 0)

-- the fill counts as `_on_fill` decides
abbrev pub added : Option ℕ → ℤ → DayTotal → DayTotal
added ts gain (d, total) = if counts_today ts (some d) then (d, total +ℤ gain) else (d, total)

-- the total for a day, which is 0 before the engine has seen the day
abbrev pub total_on : ℕ → DayTotal → ℤ
total_on today (d, total) = if d == today then total else pos 0

-- times go forward, and no fill is dated after the day on which it was taken in
abbrev pub IsOrderly : ℕ → ℕ → List Taken → Type 0
IsOrderly today day [] = Unit
IsOrderly today day (t ∷ ts) =
    (day ≤ kst_date t.at)
    × (kst_date t.at ≤ today)
    × (kst_date (or_else t.fill.ts t.at) ≤ kst_date t.at)
    × IsOrderly today (kst_date t.at) ts

module _ (quot : ℕ → ℕ → ℕ) where
  -- the total of the day and the lot over a run of fills
  unfoldable pub counted_over : List Taken → Lot → DayTotal → DayTotal
  unfolding apply_fill
  counted_over [] lot day = day
  counted_over (t ∷ ts) lot day =
      let lot' = (apply_fill quot (received t) lot).0 in
      counted_over ts lot'
        (added t.fill.ts (lot'.realized_pnl -ℤ lot.realized_pnl) (on_day (kst_date t.at) day))
