-- ===== src/Examples/Service.antt =====
-- One lot with a row and an order, and the theorems of the service at it.
use short_trading_bot.Base.{
  ℕ, ◌+◌, ◌*◌, ◌/◌, ◌≤◌, ◌≡◌, refl, sym, ℕ_discrete, inl, true, false, none, some, List, [], ◌∷◌,
  arith, get_at, inr,
}
use short_trading_bot.Base.Int.{pos}
use short_trading_bot.Domain.Enums.{krx, d1, krw, buy, sell, PositionState}
use short_trading_bot.Domain.Position.{Lot}
use short_trading_bot.Execution.Types.{OrderRequest, paper}
use short_trading_bot.Execution.Store.{Order, PositionRow, find_order}
use short_trading_bot.Execution.OrderManager.{Response, acked, returned}
use short_trading_bot.Execution.Fx.{FxRates}
use short_trading_bot.Risk.Control.{new_switch}
use short_trading_bot.App.Service.State.{
  World, is_flat, find_lot, tracked_lots, slot_lots, any_held,
}
use short_trading_bot.App.Service.State.Flat.{is_flat_sees}
use short_trading_bot.App.Service.Restore.{lot_from_row, runtime_row}
use short_trading_bot.App.Service.Restore.RoundTrip.{lot_from_row-runtime_row}
use short_trading_bot.App.Service.Books.{cap_entry_qty}
use short_trading_bot.App.Service.Books.Caps.{cap_entry_qty_lem}
use short_trading_bot.App.Service.Handler.{on_fills}
use short_trading_bot.App.Service.Handler.Steps.{IsInStep}
use short_trading_bot.App.Service.Handler.Links.{IsLinked}
use short_trading_bot.App.Service.Handler.Agreement.{on_fills-IsInStep}
use short_trading_bot.App.Service.Polling.Agreement.{IsAgreed}
use short_trading_bot.App.Service.Orders.{
  Outside, submit, release_if_terminal, past_barrier, refresh_then, past_lock, place,
}
use short_trading_bot.App.Service.Polling.{refresh_fills, refreshed, clear_barriers}
use short_trading_bot.App.Service.Orders.Locks.{
  IsGuarded, IsQuiet, IsFresh, submit_locked, submit-IsGuarded,
}
use short_trading_bot.App.Service.Orders.Barrier.{submit-IsCoveredSale, IsCoveredSale}
use short_trading_bot.App.Service.Orders.Upkeep.{submit-IsAgreed}
use short_trading_bot.App.Service.Startup.{lock_open_orders}
use short_trading_bot.App.Service.Startup.Locks.{AllLocked, lock_open_orders_lem}
use short_trading_bot.App.Service.Startup.Replay.{Taken}
use short_trading_bot.Examples.Orders.{evening, order, position, part}
use short_trading_bot.Examples.Lots.{floor}

-- ten shares of the lot are held
abbrev pub lot : Lot
lot = record {
  lot_id = 1;
  ticker = 5930;
  market = krx;
  currency = krw;
  resolution = d1;
  state = PositionState.holding;
  qty = 10;
  avg_entry = 100;
  realized_pnl = pos 0;
  peak_price = 120;
  bars_held = 3;
  initial_stop = some 90;
  original_qty = 10;
  tp_rungs_taken = 0;
  pending_stop = none;
  pending_original_qty = none;
}

abbrev row : PositionRow
row = record position {
  state = PositionState.holding;
  qty_filled = 10;
  avg_entry_price = 100;
  initial_stop = 90;
  peak_price = 120;
  original_qty = 10;
}

abbrev rates : FxRates
rates = record { one = 1; to_krw = λ c. none }

-- the memory has the lot, and an order to buy ten more with its lock
abbrev pub world : World
world = record {
  lots = lot ∷ [];
  slots = ((5930, d1), 1) ∷ [];
  pending = (2, 7) ∷ [];
  metas = [];
  refresh_before_sell = [];
  unconfirmed_buy_cancels = [];
  startup_refresh_pending = false;
  seen = [];
  last_price = [];
  cash_cache = none;
  equity_stale = false;
  daily_realized = pos 0;
  daily_date = none;
  peak_equity = pos 0;
  control = new_switch;
  store = record {
    orders = order ∷ [];
    fills = [];
    positions = row ∷ [];
    audit = [];
    column = λ n. n;
  };
}

-- the same after a start whose fills have not been taken in
abbrev started : World
started = record world { startup_refresh_pending = true }

-- an id above all that are in use
abbrev next_cid : List Order → ℕ
next_cid [] = 1
next_cid (o ∷ orders) = o.client_order_id + next_cid orders + 1

above : (k : ℕ) (orders : List Order) → next_cid orders ≤ k → find_order k orders ≡ none
above k [] h = refl
above k (o ∷ orders) h = ground (arith, above k orders)

abbrev accepts : OrderRequest → Response
accepts req = (
  [],
  acked (record {
    client_order_id = req.client_order_id;
    accepted = true;
    broker_order_no = some 556;
    tr_id = none;
    reject_reason = none;
  }),
)

abbrev env : Outside
env = record {
  autoflush = true;
  quot = λ a b. a / b;
  rates = rates;
  now = evening;
  submit_order = accepts;
  cancel_order = λ req n. accepts req;
  executions = λ w. some ([], true);
  fresh_cid = λ w. next_cid w.store.orders;
  fresh_id = λ w. next_cid w.store.orders;
}

env-IsFresh : IsFresh env
env-IsFresh w = above (next_cid w.store.orders) w.store.orders (omega arith)

env-IsQuiet : IsQuiet env
env-IsQuiet = (λ req. refl, λ req n. refl)

world-IsLinked : IsLinked world
world-IsLinked cid meta e = unfold get_at in cc

world-IsInStep : IsInStep world
world-IsInStep id l r el er = elim (ℕ_discrete 1 id) [
  | yes same ↦
      let a : l ≡ lot = ground arith in
      let b : r ≡ row = ground arith in
      rw (a, b) (record { same_qty = refl; same_avg = refl; same_pnl = refl })
  | no ne ↦ ground arith
]

world-IsGuarded : IsGuarded world
world-IsGuarded cid o f s = elim (ℕ_discrete 7 cid) [
  | yes same ↦ let a : o ≡ order = ground arith in rw (a, sym same) (unfold get_at in refl)
  | no ne ↦ ground arith
]

world-IsAgreed : IsAgreed world
world-IsAgreed = record { is_linked = world-IsLinked; is_in_step = world-IsInStep }

submit-IsAgreed_example : IsAgreed (submit env true lot sell 10 100 false world).0
submit-IsAgreed_example =
    submit-IsAgreed env true lot sell 10 100 false world env-IsFresh world-IsAgreed

on_fills-IsInStep_example :
    let w' = (on_fills true floor rates evening (part 4 ∷ part 6 ∷ []) world).0 in
    IsLinked w' × IsInStep w'
on_fills-IsInStep_example =
    on_fills-IsInStep true floor rates evening (part 4 ∷ part 6 ∷ []) world world-IsLinked
      world-IsInStep

submit-IsGuarded_example : IsGuarded (submit env false lot buy 10 100 true world).0
submit-IsGuarded_example =
    submit-IsGuarded env lot 10 100 true world env-IsQuiet env-IsFresh world-IsGuarded

submit_locked_example : submit env false lot buy 5 100 true world ≡ (world, returned false)
submit_locked_example =
    submit_locked env lot buy 5 100 true world 7 order world-IsGuarded refl refl refl
      (inr (inr (inl refl))) (λ e. cc)

submit-IsCoveredSale_example :
    IsCoveredSale env true lot 100 false 15 (submit env true lot sell 15 100 false started)
submit-IsCoveredSale_example = submit-IsCoveredSale env true lot 100 false 15 started (inl refl) (
    unfold submit past_barrier refresh_then refresh_fills refreshed clear_barriers past_lock
      release_if_terminal place in
    refl)

lot_from_row-runtime_row_example :
    lot_from_row (runtime_row (λ n. n) lot row) ≡ some (record lot { bars_held = 0 })
lot_from_row-runtime_row_example =
    lot_from_row-runtime_row (λ n. n) lot row
      (record {
        same_id = refl;
        same_ticker = refl;
        same_market = refl;
        same_currency = refl;
        same_resolution = refl;
        figures = record { same_qty = refl; same_avg = refl; same_pnl = refl };
      })
      refl refl (omega arith) (omega arith) refl (λ k e. grind arith)

-- two shares are sold from the lot in the evening, at a time that the broker does not say
abbrev evening_sale : Taken
evening_sale = record {
  fill = record {
    client_order_id = 71;
    qty = 2;
    price = 110;
    fee = 1;
    tax = 1;
    currency = krw;
    ts = none;
    source = paper;
  };
  order = record order { side = sell };
  is_add = false;
  at = evening;
}

cap_entry_qty_lem_example :
    let q = cap_entry_qty 1 floor (some 1050) lot 20 100 1 in
    (q ≤ 20) × (100 * q * 1 ≤ 1050) × ((n : ℕ) → n * 1 ≤ 20 → 100 * (n * 1) * 1 ≤ 1050 → n * 1 ≤ q)
cap_entry_qty_lem_example =
    cap_entry_qty_lem 1 floor 1050 lot 20 100 1 refl (omega arith) (omega arith) (omega arith)

-- everything has been sold
abbrev sold_out : World
sold_out = record world { lots = record lot { qty = 0 } ∷ []; pending = [] }

is_flat_sees_example :
    ((id : ℕ) (l : Lot) → find_lot id sold_out.lots ≡ some l → l.qty ≡ 0)
    × (sold_out.pending ≡ [])
    × (sold_out.unconfirmed_buy_cancels ≡ [])
    × (sold_out.startup_refresh_pending ≡ false)
is_flat_sees_example =
    is_flat_sees sold_out (unfold is_flat tracked_lots slot_lots any_held in refl)

lock_open_orders_lem_example :
    AllLocked
      (order ∷ [])
      (record world { lots = []; pending = [] })
      (lock_open_orders (order ∷ []) (record world { lots = []; pending = [] }))
lock_open_orders_lem_example =
    lock_open_orders_lem (order ∷ []) (record world { lots = []; pending = [] })
      ((row, refl, (record lot { bars_held = 0 }, unfold lot_from_row in refl)), tt)
