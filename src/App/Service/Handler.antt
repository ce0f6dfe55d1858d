-- ===== src/App/Service/Handler.antt =====
-- short_trading_bot/app/service.py: `_on_fill`, which takes a fill into the database and into memory.
-- The handler ends early where `PositionLot.apply_fill` raises; the flag says whether it did. Being
-- subscribed to a ticker's prices is not part of the state.
pub mod Steps
pub mod Links
pub mod Agreement
use short_trading_bot.Base.{
  ℕ, ◌+◌, ◌-◌, Bool, true, false, not, ◌&&◌, ◌||◌, Option, none, some, List, [], ◌∷◌, ◌++◌, ltb,
  leb, ◌==◌, if◌then◌else◌, is_some, update_by, get_at, put, pop,
}
use short_trading_bot.Base.Int.{◌+ℤ◌, ◌-ℤ◌}
use short_trading_bot.Domain.Enums.{is_buy, buy, PositionState, cancelled}
use short_trading_bot.Domain.Position.{
  Lot, LotFill, Illegal, apply_fill, is_open, is_closed, transition_to,
}
use short_trading_bot.Execution.Types.{Fill}
use short_trading_bot.Execution.Store.{
  Store, Order, PositionRow, position_key, find_order, find_position, filled_of,
}
use short_trading_bot.Execution.Session.{kst_date}
use short_trading_bot.Execution.OrderManager.{handle_fill, is_open_state, is_filled}
use short_trading_bot.Execution.Fx.{FxRates}
use short_trading_bot.App.Service.State.{
  World, PendingOrder, lock_key, find_lot, set_lot, is_final, slot_of, put_slot,
}
use short_trading_bot.App.Service.Restore.{is_watching, lot_from_row, sync_runtime}
use short_trading_bot.App.Service.Books.{adjust_cached_cash}

-- The first purchase of a lot by (created_at, order_id).
abbrev earlier : Order → Option Order → Order
earlier o none = o
earlier o (some x) =
    if ltb x.created_at o.created_at || (x.created_at == o.created_at && ltb x.order_id o.order_id)
    then x
    else o

unfoldable pub first_buy : ℕ → List Order → Option Order
first_buy lot_id [] = none
first_buy lot_id (o ∷ orders) =
    let rest = first_buy lot_id orders in
    if o.lot_id == lot_id && is_buy o.side then some (earlier o rest) else rest

abbrev differs : Option Order → Order → Bool
differs none o = false
differs (some x) o = not (x.client_order_id == o.client_order_id)

-- `_meta_from_order`
unfoldable pub meta_from_order : Store → Order → PendingOrder
unfolding first_buy
meta_from_order st o = record {
  lot_id = o.lot_id;
  side = o.side;
  is_add = is_buy o.side && differs (first_buy o.lot_id st.orders) o;
  requested_qty = o.qty;
  filled_qty = filled_of o.order_id st.fills;
  price = o.price;
}

-- `_retire_idle_lot`
unfoldable pub retire_row : ℕ → PositionState → PositionRow → PositionRow
retire_row now state row = record row { state = state; closed_at = some now }

unfoldable pub retire_idle_lot : ℕ → Lot → World → World
unfolding transition_to retire_row
retire_idle_lot now lot w =
    let lot' = (transition_to cancelled lot).0 in
    let w' = set_lot lot' w in
    record w' {
      store = record w.store {
        positions = update_by position_key lot.lot_id (retire_row now lot'.state) w.store.positions;
      };
    }

-- a lot that waits for its entry, with no purchase sent
abbrev is_idle : Lot → World → Bool
is_idle lot w =
    is_watching lot.state
    && lot.qty == 0
    && not (is_some (get_at (lock_key lot.lot_id buy) w.pending))

abbrev into_slot : Lot → World → World
into_slot lot w = record w { slots = put_slot (lot.ticker, lot.resolution) lot.lot_id w.slots }

-- the slot's lot is another one than the reopened lot
abbrev replace_slot : ℕ → Lot → Option Lot → World → World
replace_slot now lot none w = into_slot lot w
replace_slot now lot (some current) w =
    if is_idle current w then into_slot lot (retire_idle_lot now current w) else w

abbrev reopen_in : ℕ → Lot → Option ℕ → World → World
reopen_in now lot none w = into_slot lot w
reopen_in now lot (some id) w =
    if id == lot.lot_id then into_slot lot w else replace_slot now lot (find_lot id w.lots) w

-- `_adopt_reopened`
unfoldable pub adopt_reopened : ℕ → Lot → World → World
unfolding retire_idle_lot slot_of put_slot
adopt_reopened now lot w = reopen_in now lot (slot_of (lot.ticker, lot.resolution) w.slots) w

-- the lock is given up when it is still this order's
abbrev pub unlock : ℕ → ℕ → World → World
unlock key cid w = elim (get_at key w.pending) [
  | none ↦ w
  | some held ↦ if held == cid then record w { pending = pop key w.pending } else w
]

-- a fill of today, or of a time that is not known
abbrev pub counts_today : Option ℕ → Option ℕ → Bool
counts_today none day = true
counts_today ts none = true
counts_today (some ts) (some day) = leb day (kst_date ts)

-- the profit of the fill counts for the limit of the day
abbrev pub counted : Lot → Lot → Fill → World → World
counted old lot fill w =
    if counts_today fill.ts w.daily_date
    then record w { daily_realized = w.daily_realized +ℤ (lot.realized_pnl -ℤ old.realized_pnl) }
    else w

abbrev pub readopted : ℕ → Lot → Lot → World → World
readopted now old lot w =
    if is_closed old.state && is_open lot.state then adopt_reopened now lot w else w

-- `meta.filled_qty += fill.qty`, on the object that `_co_map` may hold
abbrev pub noted : PendingOrder → Fill → World → World
noted meta fill w =
    if is_some (get_at fill.client_order_id w.metas)
    then record w {
      metas =
          put fill.client_order_id (record meta { filled_qty = meta.filled_qty + fill.qty })
            w.metas;
    }
    else w

abbrev pub closed_out : PendingOrder → Fill → World → World
closed_out meta fill w =
    let w' = unlock (lock_key meta.lot_id meta.side) fill.client_order_id w in
    record w' { metas = pop fill.client_order_id w'.metas }

-- the end of `_on_fill`: an order whose quantity is reached gives up its lock
unfoldable pub count_fill : PendingOrder → Fill → World → World
count_fill meta fill w =
    if leb meta.requested_qty (meta.filled_qty + fill.qty)
    then closed_out meta fill (noted meta fill w)
    else noted meta fill w

-- `_on_fill` after `apply_fill` has returned
unfoldable pub after_apply : ℕ → Lot → Lot → PendingOrder → Fill → World → World
unfolding adopt_reopened sync_runtime count_fill
after_apply now old lot meta fill w =
    count_fill meta fill
      (sync_runtime lot (readopted now old lot (counted old lot fill (set_lot lot w))))

abbrev pub lot_fill : PendingOrder → Fill → LotFill
lot_fill meta fill = record {
  side = meta.side;
  qty = fill.qty;
  price = fill.price;
  fee = fill.fee;
  tax = fill.tax;
  is_add = meta.is_add;
}

abbrev pub finish_apply :
    ℕ → Lot → Lot × Option Illegal → PendingOrder → Fill → World → World × Bool
finish_apply now old (lot, some e) meta fill w = (set_lot lot w, true)
finish_apply now old (lot, none) meta fill w = (after_apply now old lot meta fill w, false)

-- the end of `_recover_meta` for a lot that is in memory: the meta is kept unless the order ended
-- without shares, and an open order gets a lock that is free
abbrev pub remembered : Order → Fill → PendingOrder → World → World
remembered o fill meta w =
    if not (is_final o.state) || is_filled o.state
    then record w { metas = put fill.client_order_id meta w.metas }
    else w

abbrev pub relocked : Order → Fill → PendingOrder → World → World
relocked o fill meta w =
    if is_open_state o.state && not (is_some (get_at (lock_key meta.lot_id meta.side) w.pending))
    then record w { pending = put (lock_key meta.lot_id meta.side) fill.client_order_id w.pending }
    else w

-- `_recover_meta` for a lot that is not in memory, and whose row has taken the fill in already
abbrev pub still_working : Order → Fill → PendingOrder → World → World
still_working o fill meta w =
    if ltb meta.filled_qty meta.requested_qty && not (is_final o.state)
    then record w {
      metas = put fill.client_order_id meta w.metas;
      pending = put (lock_key meta.lot_id meta.side) fill.client_order_id w.pending;
    }
    else w

-- a row that names no market raises, which the flag says
abbrev pub rebuilt : ℕ → Order → Fill → Option Lot → World → World × Bool
rebuilt now o fill none w = (w, true)
rebuilt now o fill (some lot) w = (
  adopt_reopened now lot
      (still_working o fill (meta_from_order w.store o) (record w { lots = w.lots ++ lot ∷ [] })),
  false,
)

unfoldable pub rebuild : ℕ → Order → Fill → Option PositionRow → World → World × Bool
unfolding adopt_reopened meta_from_order is_final lot_from_row
rebuild now o fill none w = (w, false)
rebuild now o fill (some row) w =
    if row.qty_filled == 0 || not (is_open row.state)
    then (w, false)
    else rebuilt now o fill (lot_from_row row) w

module _ (autoflush : Bool) (quot : ℕ → ℕ → ℕ) (rates : FxRates) (now : ℕ) where
  -- `_on_fill` from the meta of the order on
  unfoldable pub apply_meta : PendingOrder → Fill → World → World × Bool
  unfolding adjust_cached_cash
  apply_meta meta fill w = elim (find_lot meta.lot_id w.lots) [
    | none ↦ (w, false)
    | some lot ↦
        finish_apply now lot (apply_fill quot (lot_fill meta fill) lot) meta fill
          (adjust_cached_cash rates lot.currency meta.side fill w)
  ]

  -- `_on_fill` for an order that `_co_map` does not know
  unfoldable pub recover_fill : Fill → World → World × Bool
  unfolding meta_from_order apply_meta is_open_state is_final rebuild
  recover_fill fill w = elim (find_order fill.client_order_id w.store.orders) [
    | none ↦ (w, false)
    | some o ↦ elim (find_lot o.lot_id w.lots) [
      | none ↦ rebuild now o fill (find_position o.lot_id w.store.positions) w
      | some lot ↦
          let whole = meta_from_order w.store o in
          let meta = record whole { filled_qty = whole.filled_qty - fill.qty } in
          apply_meta meta fill (relocked o fill meta (remembered o fill meta w))
    ]
  ]

  -- `_on_fill`
  unfoldable pub on_fill : Fill → World → World × Bool
  unfolding recover_fill apply_meta
  on_fill fill w =
      let w' = record w { store = handle_fill autoflush quot now fill w.store } in
      elim (get_at fill.client_order_id w'.metas) [
        | none ↦ recover_fill fill w'
        | some meta ↦ apply_meta meta fill w'
      ]

  -- fills that are handed over one after another, up to one where the handler raises
  unfoldable pub on_fills : List Fill → World → World × Bool
  unfolding on_fill
  on_fills [] w = (w, false)
  on_fills (fill ∷ fills) w =
      let done = on_fill fill w in let rest = on_fills fills done.0 in if done.1 then done else rest
