-- ===== src/App/Service/Restore.antt =====
-- short_trading_bot/app/service.py: the row of a position and the lot in memory, one from the other.
pub mod RoundTrip
use short_trading_bot.Base.{
  ℕ, Bool, true, false, Option, none, some, ltb, if◌then◌else◌, update_by, or_else,
}
use short_trading_bot.Domain.Enums.{PositionState, watching}
use short_trading_bot.Domain.Position.{Lot, restore_pending_entry}
use short_trading_bot.Execution.Store.{PositionRow, MarketName, known, other, position_key}
use short_trading_bot.App.Service.State.{World}

abbrev pub is_watching : PositionState → Bool
is_watching watching = true
is_watching _ = false

-- `x if x > 0 else None`
abbrev pub positive : ℕ → Option ℕ
positive n = if ltb 0 n then some n else none

-- the lot that the constructor makes
abbrev base_lot : PositionRow → MarketName → Option Lot
base_lot row other = none
base_lot row (known m) = some (record {
  lot_id = row.lot_id;
  ticker = row.ticker;
  market = m;
  currency = row.currency;
  resolution = row.resolution;
  state = row.state;
  qty = row.qty_filled;
  avg_entry = row.avg_entry_price;
  realized_pnl = row.realized_pnl;
  peak_price = if ltb 0 row.peak_price then row.peak_price else row.avg_entry_price;
  bars_held = 0;
  initial_stop = if is_watching row.state then none else positive row.initial_stop;
  original_qty = if ltb 0 row.original_qty then row.original_qty else row.qty_filled;
  tp_rungs_taken = row.tp_rungs_taken;
  pending_stop = none;
  pending_original_qty = none;
})

abbrev with_pending : PositionRow → Option Lot → Option Lot
with_pending row none = none
with_pending row (some lot) = some (
    if is_watching lot.state
    then restore_pending_entry (positive row.initial_stop) (positive row.original_qty) lot
    else lot)

-- `_lot_from_row`; a text that names no market raises ValueError, which is `none`
unfoldable pub lot_from_row : PositionRow → Option Lot
unfolding restore_pending_entry
lot_from_row row = with_pending row (base_lot row row.market)

-- the columns that `_sync_runtime` writes
unfoldable pub runtime_row : (ℕ → ℕ) → Lot → PositionRow → PositionRow
runtime_row column lot row = record row {
  initial_stop =
      column (or_else (if is_watching lot.state then lot.pending_stop else lot.initial_stop) 0);
  peak_price = column lot.peak_price;
  tp_rungs_taken = lot.tp_rungs_taken;
  original_qty =
      column
        (if is_watching lot.state then or_else lot.pending_original_qty 0 else lot.original_qty);
}

-- `_sync_runtime`; what was written last is what the row holds, so that writing it again changes
-- nothing
unfoldable pub sync_runtime : Lot → World → World
unfolding runtime_row
sync_runtime lot w = record w {
  store = record w.store {
    positions =
        update_by position_key lot.lot_id (runtime_row w.store.column lot) w.store.positions;
  };
}
