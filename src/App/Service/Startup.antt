-- ===== src/App/Service/Startup.antt =====
-- short_trading_bot/app/service.py: `hydrate` and what it calls, `expire_stale_orders`, and
-- `_relock_order`, the callback of the resolver. The answers of the broker for past days are a
-- function of the day, and `none` is an exception.
pub mod Replay
pub mod Locks
use short_trading_bot.Base.{
  ℕ, ◌+◌, ◌-◌, Bool, true, false, not, ◌&&◌, ◌||◌, Option, none, some, List, [], ◌∷◌, ◌++◌, ◌==◌,
  insert_sorted, if◌then◌else◌, is_some, keep_if, get_at, put, or_else,
}
use short_trading_bot.Base.Int.{ℤ, pos, ◌+ℤ◌}
use short_trading_bot.Domain.Enums.{Side, is_buy, buy, sell, PositionState}
use short_trading_bot.Domain.Position.{Lot, is_open, blended, realized_of, sale_pnl}
use short_trading_bot.Execution.Types.{Execution}
use short_trading_bot.Execution.Store.{Order, FillRow, PositionRow, find_order, find_position}
use short_trading_bot.Execution.Session.{kst_date}
use short_trading_bot.Execution.OrderManager.{
  returned, raised, is_open_state, handle_fill, stale_open_orders, expire_stale,
  orphan_pending_to_unknown,
}
use short_trading_bot.Execution.FillPoller.{poll_locked}
use short_trading_bot.App.Service.State.{World, lock_key, find_lot, put_lot, slot_of, put_slot}
use short_trading_bot.App.Service.Restore.{is_watching, lot_from_row}
use short_trading_bot.App.Service.Handler.{meta_from_order}
use short_trading_bot.App.Service.Polling.{poll_all, refresh_fills}
use short_trading_bot.App.Service.Orders.{Outside, Run, and_then}

-- `sorted({...})` of the days of the orders that have a number
unfoldable pub stale_days : List (ℕ × Option ℕ × ℕ) → List ℕ
unfolding insert_sorted
stale_days [] = []
stale_days ((_, none, _) ∷ more) = stale_days more
stale_days ((_, some _, day) ∷ more) = insert_sorted day (stale_days more)

-- the orders with a number that were sent on a day
unfoldable pub numbered_on : ℕ → List (ℕ × Option ℕ × ℕ) → List ℕ
numbered_on day [] = []
numbered_on day ((_, none, _) ∷ more) = numbered_on day more
numbered_on day ((id, some _, d) ∷ more) =
    let rest = numbered_on day more in if d == day then id ∷ rest else rest

-- the loop over the days, with one day's poll and whether it raises; the orders to keep
unfoldable pub recover_days :
    (ℕ → World → World × Bool) → List (ℕ × Option ℕ × ℕ) → List ℕ → World → World × List ℕ
unfolding numbered_on
recover_days poll_day stale [] w = (w, [])
recover_days poll_day stale (day ∷ days) w =
    let (w', failed) = poll_day day w in
    let (w'', keep) = recover_days poll_day stale days w' in
    (w'', if failed then numbered_on day stale ++ keep else keep)

-- the states that `hydrate` loads
unfoldable pub is_restored : PositionState → Bool
unfolding is_open
is_restored s = is_open s || is_watching s

abbrev from_row : PositionRow → (Lot → World → Run ℕ) → World → Run ℕ
from_row row next w = elim (lot_from_row row) [ none ↦ (w, raised) | some lot ↦ next lot w ]

-- one round of the loop over the rows, with the number of slots filled so far
unfoldable pub restore_row : PositionRow → ℕ → World → Run ℕ
unfolding lot_from_row slot_of put_slot
restore_row row n w = elim (slot_of (row.ticker, row.resolution) w.slots) [
  | some id ↦
      if is_some (find_lot row.lot_id w.lots) || id == row.lot_id
      then (w, returned n)
      else from_row row (λ lot w. (put_lot lot w, returned n)) w
  | none ↦
      from_row row
        (λ lot w.
          let w' = put_lot lot w in
          (
            record w' { slots = put_slot (row.ticker, row.resolution) row.lot_id w'.slots },
            returned (n + 1),
          ))
        w
]

unfoldable pub restore_rows : List PositionRow → ℕ → World → Run ℕ
unfolding restore_row
restore_rows [] n w = (w, returned n)
restore_rows (row ∷ rows) n w = and_then (restore_row row n w) (restore_rows rows)

-- the lock and the meta of an order of a lot that is in memory
unfoldable pub relock : Order → World → World
unfolding meta_from_order
relock o w = record w {
  pending = put (lock_key o.lot_id o.side) o.client_order_id w.pending;
  metas = put o.client_order_id (meta_from_order w.store o) w.metas;
}

abbrev with_owner : Order → Option PositionRow → World → Run Unit
with_owner o none w = (w, returned tt)
with_owner o (some row) w = elim (lot_from_row row) [
  | none ↦ (w, raised)
  | some lot ↦ (relock o (put_lot lot w), returned tt)
]

-- the lot of an open order is brought back if it is not in memory, and the order gets its lock
unfoldable pub lock_open_order : Order → World → Run Unit
unfolding relock lot_from_row
lock_open_order o w =
    if is_some (find_lot o.lot_id w.lots)
    then (relock o w, returned tt)
    else with_owner o (find_position o.lot_id w.store.positions) w

unfoldable pub lock_open_orders : List Order → World → Run Unit
unfolding lock_open_order
lock_open_orders [] w = (w, returned tt)
lock_open_orders (o ∷ orders) w = and_then (lock_open_order o w) λ _. lock_open_orders orders

-- `_relock_order`
unfoldable pub relock_order : ℕ → World → Run Unit
unfolding lock_open_order is_open_state
relock_order cid w = elim (find_order cid w.store.orders) [
  | none ↦ (w, returned tt)
  | some o ↦ if is_open_state o.state then lock_open_order o w else (w, returned tt)
]

-- the fill rows with the side of their order, as the query of `_restore_risk_state` answers: by lot,
-- and within a lot by time
abbrev pub Replayed : Type 0
Replayed = List (FillRow × Side)

abbrev pub is_on : ℕ → ℕ → Bool
is_on today ts = kst_date ts == today

-- a lot of which something was sold today
unfoldable pub sold_today : ℕ → ℕ → Replayed → Bool
sold_today today lot [] = false
sold_today today lot ((r, side) ∷ rows) =
    (r.lot_id == lot && not (is_buy side) && is_on today r.filled_at) || sold_today today lot rows

-- the quantity and the average of a lot after a row, and what the row earned
unfoldable pub replay_row : (ℕ → ℕ → ℕ) → Side → FillRow → ℕ × ℕ → (ℕ × ℕ) × ℤ
unfolding blended realized_of sale_pnl
replay_row quot buy r (qty, avg) = ((qty + r.qty, blended quot avg qty r.qty r.price), pos 0)
replay_row quot sell r (qty, avg) =
    ((qty - r.qty, avg), sale_pnl r.price avg (realized_of r.qty qty) r.fee r.tax)

-- the loop over the rows, with `book` and the profit so far
unfoldable pub replay : (ℕ → ℕ → ℕ) → ℕ → (ℕ → Bool) → Replayed → List (ℕ × (ℕ × ℕ)) → ℤ → ℤ
unfolding replay_row
replay quot today sold [] book realized = realized
replay quot today sold ((r, side) ∷ rows) book realized =
    if sold r.lot_id
    then (let (entry, gain) = replay_row quot side r (or_else (get_at r.lot_id book) (0, 0)) in
        replay quot today sold rows (put r.lot_id entry book)
          (if is_on today r.filled_at then realized +ℤ gain else realized))
    else replay quot today sold rows book realized

-- `_restore_risk_state`, with the last peak that was recorded, unless the broker is simulated
unfoldable pub restore_risk_state : (ℕ → ℕ → ℕ) → ℕ → Replayed → Option ℤ → World → World
unfolding replay sold_today
restore_risk_state quot now rows peak w = record w {
  daily_date = some (kst_date now);
  daily_realized =
      replay quot (kst_date now) (λ lot. sold_today (kst_date now) lot rows) rows [] (pos 0);
  peak_equity = or_else peak w.peak_equity;
}

module _ (env : Outside) (past : ℕ → Option (List Execution)) where
  -- `poll_day` of a new poller, with `_on_fill` or with the order manager as the handler
  unfoldable pub poll_day : Bool → ℕ → World → World × Bool
  unfolding poll_all poll_locked handle_fill
  poll_day db_only day w = elim (past day) [
    | none ↦ (w, true)
    | some exs ↦
        if db_only
        then (
          record w {
            store =
                (poll_locked env.quot (handle_fill env.autoflush env.quot env.now) env.now
                  (some day) exs [] w.store).store;
          },
          false,
        )
        else (let done =
              poll_all env.autoflush env.quot env.rates env.now (some day) exs
                (record w { seen = [] }) in
            (record done.0 { seen = w.seen }, done.1))
  ]

  -- `expire_stale_orders`
  unfoldable pub expire_stale_orders : Bool → World → World × ℕ
  unfolding stale_open_orders stale_days recover_days poll_day expire_stale
  expire_stale_orders db_only w =
      let stale = stale_open_orders env.now w.store in
      let (w', keep) = recover_days (poll_day db_only) stale (stale_days stale) w in
      let (st, n) = expire_stale env.now keep w'.store in (record w' { store = st }, n)

  -- `hydrate`
  unfoldable pub hydrate : Replayed → Option ℤ → World → Run ℕ
  unfolding orphan_pending_to_unknown expire_stale_orders is_restored restore_rows
      restore_risk_state lock_open_orders is_open_state refresh_fills
  hydrate rows peak w =
      let w1 = record w { store = (orphan_pending_to_unknown w.store).0 } in
      let w2 = (expire_stale_orders true w1).0 in
      and_then (restore_rows (keep_if (λ row. is_restored row.state) w2.store.positions) 0 w2)
        λ n w3.
          let w4 = restore_risk_state env.quot env.now rows peak w3 in
          and_then (lock_open_orders (keep_if (λ o. is_open_state o.state) w4.store.orders) w4)
            λ _ w5. (
              (refresh_fills env.autoflush env.quot env.rates env.now env.executions none
                  (record w5 { startup_refresh_pending = true })).0,
              returned n,
            )
