-- ===== src/App/Service/Restore/RoundTrip.antt =====
-- What a restart brings back of a lot: the row that was written last, read again.
use mathlib.Core.Option
use short_trading_bot.Base.{ℕ, Option-cases, inl, inr, ◌<◌, ◌≡◌, false, none, some, arith}
use short_trading_bot.Domain.Position.{Lot}
use short_trading_bot.Execution.Store.{PositionRow, known}
use short_trading_bot.Execution.OrderManager.Projection.{Agrees}
use short_trading_bot.App.Service.Restore.{lot_from_row, runtime_row, is_watching}

-- The row is the lot's: the columns that are written once, and the figures of the fills.
pub record IsRowOf (lot : Lot) (row : PositionRow) : Type 0 where
  pub same_id : row.lot_id ≡ lot.lot_id
  pub same_ticker : row.ticker ≡ lot.ticker
  pub same_market : row.market ≡ known lot.market
  pub same_currency : row.currency ≡ lot.currency
  pub same_resolution : row.resolution ≡ lot.resolution
  pub figures : Agrees lot row

-- A lot that does not wait for its entry, and whose peak, original quantity and stop, if there is one,
-- are not 0 in their columns, comes back with the state of its row and with the stop, the peak and the
-- original quantity as the columns keep them; its count of bars starts again at 0, and the settings of
-- an entry that waits are gone. The rest is as it was.
pub lot_from_row-runtime_row :
    (column : ℕ → ℕ) (lot : Lot) (row : PositionRow)
    → IsRowOf lot row
    → is_watching lot.state ≡ false
    → is_watching row.state ≡ false
    → 0 < column lot.peak_price
    → 0 < column lot.original_qty
    → column 0 ≡ 0
    → ((s : ℕ) → lot.initial_stop ≡ some s → 0 < column s)
    → lot_from_row (runtime_row column lot row)
      ≡ some (record lot {
        state = row.state;
        initial_stop = Option.map column lot.initial_stop;
        peak_price = column lot.peak_price;
        original_qty = column lot.original_qty;
        bars_held = 0;
        pending_stop = none;
        pending_original_qty = none;
      })
unfolding lot_from_row runtime_row
lot_from_row-runtime_row column lot row r n m p q z s = elim (Option-cases lot.initial_stop) [
  | inl e ↦ ground arith
  | inr (stop, e) ↦ let kept = s stop e in ground arith
]
