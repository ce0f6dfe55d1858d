-- ===== src/App/Service/Orders.antt =====
-- short_trading_bot/app/service.py: `_submit`, `_cancel_pending`, `_cancel_open_buy` and
-- `_release_if_terminal`. A call of the order manager hands the fills that the broker pushes to
-- `_on_fill`. The answer to a request is a function of the request; the executions that are reported
-- and the ids of a new order are functions of the state. Other tasks of the event loop do not run in
-- between.
pub mod Locks
pub mod Barrier
pub mod Agreement
pub mod Upkeep
use short_trading_bot.Base.{
  ℕ, min, Bool, true, false, not, ◌&&◌, ◌||◌, Option, none, some, List, ◌==◌, if◌then◌else◌,
  contains, get_at, put, pop,
}
use short_trading_bot.Domain.Enums.{Side, is_buy, buy, is_overseas}
use short_trading_bot.Domain.Signal.{OrdDvsn}
use short_trading_bot.Domain.Position.{Lot}
use short_trading_bot.Execution.Types.{Fill, Execution, OrderRequest, OrderAck}
use short_trading_bot.Execution.Store.{Store, Order, find_order}
use short_trading_bot.Execution.TickSize.{round_to_tick}
use short_trading_bot.Execution.OrderManager.{
  Reply, failed, Response, Ended, returned, raised, existing_ack, persist, conclude, cancel_reply,
  is_cancel_noop, is_unknown,
}
use short_trading_bot.Execution.Fx.{FxRates}
use short_trading_bot.App.Service.State.{World, PendingOrder, lock_key, find_lot, is_final, add_to}
use short_trading_bot.App.Service.Handler.{unlock, on_fills}
use short_trading_bot.App.Service.Polling.{refresh_fills}

-- What the service works with, besides its state.
pub record Outside : Type 0 where
  pub autoflush : Bool
  pub quot : ℕ → ℕ → ℕ
  pub rates : FxRates
  pub now : ℕ
  pub submit_order : OrderRequest → Response
  pub cancel_order : OrderRequest → Option ℕ → Response
  pub executions : World → Option (List Execution × Bool)
  pub fresh_cid : World → ℕ
  pub fresh_id : World → ℕ

abbrev pub Run : Type 0 → Type 0
Run A = World × Ended A

-- the next statement, unless the last one raised
abbrev pub and_then : {A B : Type 0} → Run A → (A → World → Run B) → Run B
and_then (w, raised) f = (w, raised)
and_then (w, returned a) f = f a w

-- whether the order of a lock can no longer be filled
abbrev pub is_over : Option Order → Bool
is_over none = true
is_over (some o) = is_final o.state

-- `_release_if_terminal`, after its query has found the order of the lock over
unfoldable pub release_after : ℕ → ℕ → World → World
release_after key cid w = let w' = unlock key cid w in record w' { metas = pop cid w'.metas }

-- `_release_if_terminal`
unfoldable pub release_if_terminal : ℕ → World → World × Bool
unfolding release_after is_final
release_if_terminal key w = elim (get_at key w.pending) [
  | none ↦ (w, true)
  | some cid ↦
      if is_over (find_order cid w.store.orders)
      then (release_after key cid w, true)
      else (w, false)
]

-- the shares that the lot has now
abbrev pub qty_now : Lot → World → ℕ
qty_now lot w = elim (find_lot lot.lot_id w.lots) [ none ↦ lot.qty | some l ↦ l.qty ]

-- the limit price on a tick
abbrev pub limit_price : Lot → Side → ℕ → ℕ
limit_price lot side price = if is_overseas lot.market then price else round_to_tick price side

-- a call of the broker ends with an exception when the handler of a pushed fill raises
abbrev pub reply_after : Bool → Reply → Reply
reply_after handler_raised reply = if handler_raised then failed else reply

abbrev pub with_store : {A : Type 0} → World → Store × Ended A → Run A
with_store w (st, e) = (record w { store = st }, e)

abbrev meta_qty : Option PendingOrder → ℕ
meta_qty none = 0
meta_qty (some po) = po.requested_qty

unfoldable pub cancel_request : Lot → Side → ℕ → World → OrderRequest
unfolding get_at
cancel_request lot side cid w = record {
  client_order_id = cid;
  lot_id = lot.lot_id;
  ticker = lot.ticker;
  market = lot.market;
  side = side;
  qty = meta_qty (get_at cid w.metas);
  price = 0;
  ord_dvsn = OrdDvsn.limit;
}

abbrev forget : ℕ → ℕ → Bool → World → Run Bool
forget key cid done w =
    if done
    then (record w { pending = pop key w.pending; metas = pop cid w.metas }, returned true)
    else (w, returned false)

unfoldable pub order_request : Lot → Side → ℕ → ℕ → ℕ → OrderRequest
unfolding round_to_tick
order_request lot side qty price cid = record {
  client_order_id = cid;
  lot_id = lot.lot_id;
  ticker = lot.ticker;
  market = lot.market;
  side = side;
  qty = qty;
  price = limit_price lot side price;
  ord_dvsn = OrdDvsn.limit;
}

abbrev new_meta : OrderRequest → Bool → PendingOrder
new_meta req is_add = record {
  lot_id = req.lot_id;
  side = req.side;
  is_add = is_add;
  requested_qty = req.qty;
  filled_qty = 0;
  price = req.price;
}

-- the lock and the meta of a new order
unfoldable pub lock_order : OrderRequest → Bool → World → World
lock_order req is_add w = record w {
  pending = put (lock_key req.lot_id req.side) req.client_order_id w.pending;
  metas = put req.client_order_id (new_meta req is_add) w.metas;
}

unfoldable pub settle : OrderRequest → OrderAck → World → Run Bool
settle req ack w = if ack.accepted then (w, returned true) else (
  record w {
    pending = pop (lock_key req.lot_id req.side) w.pending;
    metas = pop req.client_order_id w.metas;
  },
  returned false,
)

abbrev pub Next : Type 0
Next = ℕ → World → Run Bool

abbrev pub go_on : Next → ℕ → World → Run Bool
go_on next qty w = if qty == 0 then (w, returned false) else next qty w

module _ (env : Outside) where
  abbrev pub pushed : List Fill → World → World × Bool
  pushed = on_fills env.autoflush env.quot env.rates env.now

  abbrev conclude_in : OrderRequest → Reply → World × Bool → Run OrderAck
  conclude_in req reply (w, r) = with_store w (conclude req (reply_after r reply) w.store)

  -- `OrderManager.submit`, with `_on_fill` as the handler of the broker's fills
  unfoldable pub send_order : OrderRequest → World → Run OrderAck
  unfolding persist conclude existing_ack on_fills
  send_order req w = elim (find_order req.client_order_id w.store.orders) [
    | some o ↦ (w, returned (existing_ack req o))
    | none ↦ conclude_in req (env.submit_order req).1 (
        pushed (env.submit_order req).0
          (record w { store = persist (env.fresh_id w) env.now req w.store }))
  ]

  abbrev cancel_in : OrderRequest → Reply → World × Bool → Run Bool
  cancel_in req reply (w, r) =
      with_store w (cancel_reply env.autoflush env.quot env.now req (reply_after r reply) w.store)

  -- `OrderManager.cancel`, with `_on_fill` as the handler
  unfoldable pub cancel_sent : OrderRequest → World → Run Bool
  unfolding is_cancel_noop cancel_reply on_fills
  cancel_sent req w = elim (find_order req.client_order_id w.store.orders) [
    | none ↦ (w, returned true)
    | some o ↦
        if is_cancel_noop o.state
        then (w, returned true)
        else if is_unknown o.state
        then (w, returned false)
        else cancel_in req (env.cancel_order req o.broker_order_no).1
            (pushed (env.cancel_order req o.broker_order_no).0 w)
  ]

  -- `_cancel_pending`
  unfoldable pub cancel_pending : Lot → Side → World → Run Bool
  unfolding cancel_sent cancel_request
  cancel_pending lot side w = elim (get_at (lock_key lot.lot_id side) w.pending) [
    | none ↦ (w, returned true)
    | some cid ↦
        and_then (cancel_sent (cancel_request lot side cid w) w)
          (forget (lock_key lot.lot_id side) cid)
  ]

  abbrev pub refresh : Lot → World → World × Bool
  refresh lot =
      refresh_fills env.autoflush env.quot env.rates env.now env.executions (some lot.lot_id)

  abbrev after_buy_cancel : Lot → Bool → World → Run Unit
  after_buy_cancel lot done w =
      if done
      then (
        (refresh lot
            (record w { unconfirmed_buy_cancels = add_to lot.lot_id w.unconfirmed_buy_cancels })).0,
        returned tt,
      )
      else (w, returned tt)

  abbrev cancel_unless : Bool → Lot → World → Run Unit
  cancel_unless released lot w =
      if released
      then (w, returned tt)
      else and_then (cancel_pending lot buy w) (after_buy_cancel lot)

  -- `_cancel_open_buy`
  unfoldable pub cancel_open_buy : Lot → World → Run Unit
  unfolding cancel_pending release_if_terminal refresh_fills
  cancel_open_buy lot w =
      let (w', released) = release_if_terminal (lock_key lot.lot_id buy) w in
      cancel_unless released lot w'

  -- `_submit` from the new id on
  unfoldable pub place : Lot → Side → ℕ → ℕ → Bool → World → Run Bool
  unfolding order_request lock_order settle send_order
  place lot side price qty is_add w =
      let req = order_request lot side qty price (env.fresh_cid w) in
      and_then (send_order req (lock_order req is_add w)) (settle req)

  abbrev after_refresh : Lot → ℕ → Next → World × Bool → Run Bool
  after_refresh lot qty next (w, ok) =
      if ok then go_on next (min qty (qty_now lot w)) w else (w, returned false)

  -- the fills are taken in before a sale, which is reduced to the shares that are left
  unfoldable pub refresh_then : Lot → ℕ → Next → World → Run Bool
  unfolding refresh_fills
  refresh_then lot qty next w = after_refresh lot qty next (refresh lot w)

  unfoldable pub past_barrier : Lot → Side → ℕ → Next → World → Run Bool
  unfolding refresh_then
  past_barrier lot side qty next w =
      if not (is_buy side)
        && (contains lot.lot_id w.refresh_before_sell || w.startup_refresh_pending)
      then refresh_then lot qty next w
      else next qty w

  abbrev after_cancel : Lot → Side → ℕ → Next → Bool → World → Run Bool
  after_cancel lot side qty next done w =
      if not done
      then (w, returned false)
      else if is_buy side
      then next qty w
      else refresh_then lot qty next
          (record w { refresh_before_sell = add_to lot.lot_id w.refresh_before_sell })

  abbrev after_release : Bool → Lot → Side → ℕ → Next → World × Bool → Run Bool
  after_release replace lot side qty next (w, released) =
      if released
      then next qty w
      else if not replace
      then (w, returned false)
      else and_then (cancel_pending lot side w) (after_cancel lot side qty next)

  unfoldable pub past_lock : Bool → Lot → Side → ℕ → Next → World → Run Bool
  unfolding release_if_terminal cancel_pending refresh_then
  past_lock replace lot side qty next w =
      after_release replace lot side qty next (release_if_terminal (lock_key lot.lot_id side) w)

  -- `_submit`
  unfoldable pub submit : Bool → Lot → Side → ℕ → ℕ → Bool → World → Run Bool
  unfolding past_barrier past_lock place
  submit replace lot side qty price is_add w =
      go_on
        (λ q0.
          past_barrier lot side q0
            λ q1. past_lock replace lot side q1 λ q2 w'. place lot side price q2 is_add w')
        qty w
