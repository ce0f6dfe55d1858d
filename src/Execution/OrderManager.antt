-- ===== src/Execution/OrderManager.antt =====
-- short_trading_bot/execution/order_manager.py: idempotent submission, cancellation, the fills and
-- the expiry of orders, over the database rows. Three things come from outside the source:
-- `autoflush`, whether a query sees the rows that the session has added and not yet written (a
-- setting of SQLAlchemy's session, whose default is yes and which `session_factory` leaves alone);
-- `quot`, the division of `Decimal`; and the broker, which within a call may hand fills to
-- `fill_handler` and then acknowledges, refuses for certain, or fails with the outcome unknown.
pub mod Fills
pub mod Submission
pub mod Projection
pub mod Expiry
use short_trading_bot.Base.{
  ℕ, ◌+◌, ◌-◌, Bool, true, false, not, ◌&&◌, Option, none, some, List, [], ◌∷◌, ◌++◌, map, leb,
  ◌==◌, if◌then◌else◌, update_by, keep_if, contains, length, or_else,
}
use short_trading_bot.Base.Int.{◌+ℤ◌}
use short_trading_bot.Domain.Enums.{
  Side, buy, sell, PositionState, OrderState, pending_new, unknown, new, partially_filled, filled,
  cancelled, rejected, expired,
}
use short_trading_bot.Domain.Position.{blended, realized_of, sale_pnl}
use short_trading_bot.Execution.Types.{OrderRequest, OrderAck, existing_order, broker_error, Fill}
use short_trading_bot.Execution.Store.{
  Store, Order, FillRow, PositionRow, MarketName, AuditLog, EventType, order_pending, order_unknown,
  order_accepted, order_rejected, order_cancelled, order_expired, fill_applied, order_key,
  position_key, find_order, find_position, filled_of,
}
use short_trading_bot.Execution.Session.{order_in_session, elsewhere, kst_date}

pub data Reply : Type 0 where
  acked : OrderAck → Reply
  refused : ℕ → Reply
  failed : Reply

-- the fills pushed during a call, and how the call ends
abbrev pub Response : Type 0
Response = List Fill × Reply

-- how a coroutine ends
pub data Ended (A : Type 0) : Type 0 where
  returned : A → Ended A
  raised : Ended A

-- `_CANCEL_NOOP_STATES`
unfoldable pub is_cancel_noop : OrderState → Bool
is_cancel_noop filled = true
is_cancel_noop cancelled = true
is_cancel_noop rejected = true
is_cancel_noop expired = true
is_cancel_noop _ = false

-- `_OPEN_STATES`
unfoldable pub is_open_state : OrderState → Bool
is_open_state pending_new = true
is_open_state unknown = true
is_open_state new = true
is_open_state partially_filled = true
is_open_state _ = false

-- the states that `submit` reports as accepted
unfoldable pub is_accepted_state : OrderState → Bool
is_accepted_state new = true
is_accepted_state partially_filled = true
is_accepted_state filled = true
is_accepted_state _ = false

abbrev pub is_rejected : OrderState → Bool
is_rejected rejected = true
is_rejected _ = false

-- `_TERMINAL_NO_FILL_STATES`
unfoldable pub is_terminal_no_fill : OrderState → Bool
is_terminal_no_fill cancelled = true
is_terminal_no_fill rejected = true
is_terminal_no_fill expired = true
is_terminal_no_fill _ = false

abbrev pub is_filled : OrderState → Bool
is_filled filled = true
is_filled _ = false

abbrev pub is_unknown : OrderState → Bool
is_unknown unknown = true
is_unknown _ = false

abbrev pub is_pending : OrderState → Bool
is_pending pending_new = true
is_pending _ = false

-- `_audit`
abbrev pub audit_row : EventType → ℕ → ℕ → AuditLog
audit_row event lot cid = record { event_type = event; lot_id = lot; client_order_id = cid }

-- an assignment to the row of an order, and an entry of the log
abbrev pub assign : EventType → ℕ → ℕ → (Order → Order) → Store → Store
assign event lot cid f st = record st {
  orders = update_by order_key cid f st.orders;
  audit = st.audit ++ audit_row event lot cid ∷ [];
}

-- a fill without a time gets the time of the write, the default of the column
unfoldable pub fill_row : ℕ → Order → Fill → FillRow
fill_row now o fill = record {
  order_id = o.order_id;
  lot_id = o.lot_id;
  qty = fill.qty;
  price = fill.price;
  fee = fill.fee;
  tax = fill.tax;
  currency = fill.currency;
  filled_at = or_else fill.ts now;
  source = fill.source;
}

-- FILLED or PARTIALLY_FILLED, by the total
unfoldable pub by_total : ℕ → ℕ → OrderState
by_total total qty = if leb qty total then filled else partially_filled

-- the state of an order after a fill
unfoldable pub state_after_fill : OrderState → ℕ → ℕ → OrderState
unfolding by_total is_terminal_no_fill
state_after_fill s total qty =
    if is_rejected s
    then by_total total qty
    else if is_terminal_no_fill s
    then s
    else by_total total qty

-- `pos.state in (WATCHING, CLOSED)`
abbrev reopens : PositionState → Bool
reopens PositionState.watching = true
reopens PositionState.closed = true
reopens _ = false

abbrev is_closed_row : PositionState → Bool
is_closed_row PositionState.closed = true
is_closed_row _ = false

project_buy : (ℕ → ℕ → ℕ) → Fill → PositionRow → PositionRow
unfolding blended
project_buy quot fill pos = record pos {
  avg_entry_price = blended quot pos.avg_entry_price pos.qty_filled fill.qty fill.price;
  qty_filled = pos.qty_filled + fill.qty;
  closed_at = if is_closed_row pos.state then none else pos.closed_at;
  state = if reopens pos.state then PositionState.holding else pos.state;
}

project_sell : ℕ → Fill → PositionRow → PositionRow
unfolding sale_pnl realized_of
project_sell now fill pos =
    let left = pos.qty_filled - fill.qty in
    record pos {
      realized_pnl =
          pos.realized_pnl
          +ℤ sale_pnl fill.price pos.avg_entry_price (realized_of fill.qty pos.qty_filled) fill.fee
              fill.tax;
      qty_filled = left;
      state = if left == 0 then PositionState.closed else pos.state;
      closed_at = if left == 0 then some now else pos.closed_at;
    }

-- `_apply_to_position`, on the row of the lot
unfoldable pub project : (ℕ → ℕ → ℕ) → ℕ → Side → Fill → PositionRow → PositionRow
unfolding project_buy project_sell
project quot now buy fill pos = project_buy quot fill pos
project quot now sell fill pos = project_sell now fill pos

-- the total that `handle_fill` compares with the ordered quantity
unfoldable pub seen_total : Bool → ℕ → Order → Fill → List FillRow → ℕ
unfolding fill_row
seen_total autoflush now o fill fills =
    filled_of o.order_id (if autoflush then fills ++ fill_row now o fill ∷ [] else fills) + fill.qty

module _ (autoflush : Bool) (quot : ℕ → ℕ → ℕ) where
  unfoldable pub apply_to_order : ℕ → Order → Fill → Store → Store
  unfolding seen_total state_after_fill project
  apply_to_order now o fill st = record st {
    fills = st.fills ++ fill_row now o fill ∷ [];
    orders =
        update_by order_key fill.client_order_id
          (λ x. record x {
            state = state_after_fill o.state (seen_total autoflush now o fill st.fills) o.qty;
          })
          st.orders;
    positions = update_by position_key o.lot_id (project quot now o.side fill) st.positions;
    audit = st.audit ++ audit_row fill_applied o.lot_id fill.client_order_id ∷ [];
  }

  unfoldable pub handle_fill : ℕ → Fill → Store → Store
  unfolding apply_to_order
  handle_fill now fill st = elim (find_order fill.client_order_id st.orders) [
    | none ↦ st
    | some o ↦ apply_to_order now o fill st
  ]

  unfoldable pub handle_fills : ℕ → List Fill → Store → Store
  handle_fills now [] st = st
  handle_fills now (fill ∷ fills) st = handle_fills now fills (handle_fill now fill st)

-- `submit`, for an id that is in the table: nothing is sent
unfoldable pub existing_ack : OrderRequest → Order → OrderAck
unfolding is_accepted_state
existing_ack req o = record {
  client_order_id = req.client_order_id;
  accepted = is_accepted_state o.state;
  broker_order_no = o.broker_order_no;
  tr_id = o.tr_id;
  reject_reason = if is_accepted_state o.state then none else some (existing_order o.state);
}

-- the new row of an order
unfoldable pub pending_order : ℕ → ℕ → OrderRequest → Order
pending_order fresh now req = record {
  order_id = fresh;
  lot_id = req.lot_id;
  client_order_id = req.client_order_id;
  broker_order_no = none;
  tr_id = none;
  ord_dvsn = req.ord_dvsn;
  side = req.side;
  qty = req.qty;
  price = req.price;
  state = pending_new;
  created_at = now;
}

unfoldable pub persist : ℕ → ℕ → OrderRequest → Store → Store
unfolding pending_order
persist fresh now req st = record st {
  orders = st.orders ++ pending_order fresh now req ∷ [];
  audit = st.audit ++ audit_row order_pending req.lot_id req.client_order_id ∷ [];
}

unfoldable pub accept_order : OrderAck → Order → Order
accept_order ack o = record o {
  broker_order_no = ack.broker_order_no;
  tr_id = ack.tr_id;
  state = if is_pending o.state then new else o.state;
}

-- `_record_outcome`; its `assert` raises if the row is gone
unfoldable pub record_outcome : OrderRequest → OrderAck → Store → Store × Ended OrderAck
unfolding accept_order
record_outcome req ack st = elim (find_order req.client_order_id st.orders) [
  | none ↦ (st, raised)
  | some o ↦ (
    if ack.accepted
        then assign order_accepted req.lot_id req.client_order_id (accept_order ack) st
        else assign order_rejected req.lot_id req.client_order_id
            (λ x. record x { state = rejected }) st,
    returned ack,
  )
]

abbrev pub refused_ack : OrderRequest → ℕ → OrderAck
refused_ack req text = record {
  client_order_id = req.client_order_id;
  accepted = false;
  broker_order_no = none;
  tr_id = none;
  reject_reason = some (broker_error text);
}

-- what `submit` does when the broker's call has ended
unfoldable pub conclude : OrderRequest → Reply → Store → Store × Ended OrderAck
unfolding record_outcome
conclude req (acked ack) st = record_outcome req ack st
conclude req (refused text) st = record_outcome req (refused_ack req text) st
conclude req failed st = elim (find_order req.client_order_id st.orders) [
  | none ↦ (st, raised)
  | some _ ↦ (
    assign order_unknown req.lot_id req.client_order_id (λ x. record x { state = unknown }) st,
    raised,
  )
]

-- `cancel`, when the broker's call has ended with an acknowledgement
unfoldable pub conclude_cancel : OrderRequest → OrderAck → Store → Store
conclude_cancel req ack st =
    if ack.accepted
    then (elim (find_order req.client_order_id st.orders) [
      | none ↦ st
      | some o ↦
          if is_filled o.state
          then st
          else assign order_cancelled req.lot_id req.client_order_id
              (λ x. record x { state = cancelled }) st
    ])
    else st

module _ (autoflush : Bool) (quot : ℕ → ℕ → ℕ) (now : ℕ) where
  unfoldable pub submit :
      ℕ → (OrderRequest → Response) → OrderRequest → Store → Store × Ended OrderAck
  unfolding persist existing_ack conclude handle_fills
  submit fresh broker req st = elim (find_order req.client_order_id st.orders) [
    | some o ↦ (st, returned (existing_ack req o))
    | none ↦
        let (fills, reply) = broker req in
        conclude req reply (handle_fills autoflush quot now fills (persist fresh now req st))
  ]

  unfoldable pub cancel_reply : OrderRequest → Reply → Store → Store × Ended Bool
  unfolding conclude_cancel
  cancel_reply req (acked ack) st = (conclude_cancel req ack st, returned ack.accepted)
  cancel_reply req _ st = (st, raised)

  unfoldable pub cancel :
      (OrderRequest → Option ℕ → Response) → OrderRequest → Store → Store × Ended Bool
  unfolding is_cancel_noop cancel_reply handle_fills
  cancel broker req st = elim (find_order req.client_order_id st.orders) [
    | none ↦ (st, returned true)
    | some o ↦
        if is_cancel_noop o.state
        then (st, returned true)
        else if is_unknown o.state
        then (st, returned false)
        else let (fills, reply) = broker req o.broker_order_no in
          cancel_reply req reply (handle_fills autoflush quot now fills st)
  ]

-- the outer join of an order with the market of its position
unfoldable pub market_of : List PositionRow → Order → Option MarketName
market_of positions o = elim (find_position o.lot_id positions) [
  | none ↦ none
  | some p ↦ some p.market
]

module _ (now : ℕ) where
  -- an open order of an earlier session
  unfoldable pub is_past : List PositionRow → Order → Bool
  unfolding is_open_state market_of
  is_past positions o =
      is_open_state o.state && not (order_in_session o.created_at (market_of positions o) now)

  unfoldable pub stale_open_orders : Store → List (ℕ × Option ℕ × ℕ)
  unfolding is_past
  stale_open_orders st =
      map (λ o. (o.order_id, o.broker_order_no, kst_date o.created_at))
        (keep_if (λ o. is_past st.positions o && not (elsewhere (market_of st.positions o)))
          st.orders)

  unfoldable pub expire_row : List ℕ → List PositionRow → Order → Order
  unfolding is_past
  expire_row keep positions o =
      if is_past positions o && not (contains o.order_id keep)
      then record o { state = expired }
      else o

  unfoldable pub expire_stale : List ℕ → Store → Store × ℕ
  unfolding expire_row
  expire_stale keep st =
      let gone =
        keep_if (λ o. is_past st.positions o && not (contains o.order_id keep)) st.orders in
      (
        record st {
          orders = map (expire_row keep st.positions) st.orders;
          audit = st.audit ++ map (λ o. audit_row order_expired o.lot_id o.client_order_id) gone;
        },
        length gone,
      )

unfoldable pub orphan_row : Order → Order
orphan_row o = if is_pending o.state then record o { state = unknown } else o

unfoldable pub orphan_pending_to_unknown : Store → Store × ℕ
unfolding orphan_row
orphan_pending_to_unknown st =
    let rows = keep_if (λ o. is_pending o.state) st.orders in
    (
      record st {
        orders = map orphan_row st.orders;
        audit = st.audit ++ map (λ o. audit_row order_unknown o.lot_id o.client_order_id) rows;
      },
      length rows,
    )
