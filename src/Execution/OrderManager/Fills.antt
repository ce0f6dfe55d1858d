-- ===== src/Execution/OrderManager/Fills.antt =====
-- What a fill does to the rows of the orders and of the fills.
use short_trading_bot.Base.{
  ℕ, ◌+◌, ◌≤◌, ◌<◌, ◌≡◌, refl, ◌≢◌, ◌↔◌, ◌⊎◌, inl, inr, Bool, true, false, none, some, List, [],
  ◌∷◌, ◌++◌, arith, ◌==◌, if◌then◌else◌, find_by-update_by_self, find_by-update_by_ne, Option-cases,
}
use short_trading_bot.Domain.Enums.{OrderState, filled, cancelled, expired}
use short_trading_bot.Execution.Types.{Fill}
use short_trading_bot.Execution.Store.{Store, Order, FillRow, order_key, find_order, filled_of}
use short_trading_bot.Execution.OrderManager.{
  handle_fill, state_after_fill, seen_total, fill_row, apply_to_order, is_open_state,
}

-- One more row adds its quantity to its own order's total alone.
pub filled_of-append :
    (id : ℕ) (fills : List FillRow) (r : FillRow)
    → filled_of id (fills ++ r ∷ []) ≡ filled_of id fills + (if r.order_id == id then r.qty else 0)
filled_of-append id [] r = ground arith
filled_of-append id (x ∷ xs) r = ground (arith, filled_of-append id xs r)

-- the quantities of a fill that the comparison with the ordered quantity counts
abbrev pub counted : Bool → Fill → ℕ
counted true fill = fill.qty + fill.qty
counted false fill = fill.qty

pub seen_total_lem :
    (autoflush : Bool) (now : ℕ) (o : Order) (fill : Fill) (fills : List FillRow)
    → seen_total autoflush now o fill fills ≡ filled_of o.order_id fills + counted autoflush fill
unfolding seen_total
seen_total_lem true now o fill fills =
    ground (arith, filled_of-append o.order_id fills (fill_row now o fill))
seen_total_lem false now o fill fills = ground arith

-- the state that a fill leaves an order in
abbrev pub next_state : Bool → Order → Fill → List FillRow → OrderState
next_state autoflush o fill fills =
    state_after_fill o.state (filled_of o.order_id fills + counted autoflush fill) o.qty

module _ (autoflush : Bool) (quot : ℕ → ℕ → ℕ) (now : ℕ) where
  pub handle_fill_known :
      (fill : Fill) (st : Store) {o : Order}
      → find_order fill.client_order_id st.orders ≡ some o
      → handle_fill autoflush quot now fill st ≡ apply_to_order autoflush quot now o fill st
  unfolding handle_fill
  handle_fill_known fill st h = rw (h, handle_fill)

  pub handle_fill_missing :
      (fill : Fill) (st : Store)
      → find_order fill.client_order_id st.orders ≡ none
      → handle_fill autoflush quot now fill st ≡ st
  unfolding handle_fill
  handle_fill_missing fill st h = rw (h, handle_fill)

  -- A fill of an order that is in the table: its row gets the next state and nothing else.
  pub handle_fill_self :
      (fill : Fill) (st : Store) {o : Order}
      → find_order fill.client_order_id st.orders ≡ some o
      → find_order fill.client_order_id (handle_fill autoflush quot now fill st).orders
        ≡ some (record o { state = next_state autoflush o fill st.fills })
  unfolding apply_to_order
  handle_fill_self fill st {o} h =
      rw (handle_fill_known fill st h, ← seen_total_lem autoflush now o fill st.fills)
        (find_by-update_by_self order_key fill.client_order_id _ st.orders refl h)

  -- The other orders' rows are left alone.
  pub handle_fill_ne :
      (fill : Fill) (j : ℕ) (st : Store)
      → j ≢ fill.client_order_id
      → find_order j (handle_fill autoflush quot now fill st).orders ≡ find_order j st.orders
  unfolding apply_to_order
  handle_fill_ne fill j st ne = elim (Option-cases (find_order fill.client_order_id st.orders)) [
    | inl e ↦ rw (handle_fill_missing fill st e)
    | inr (o, e) ↦
        rw (handle_fill_known fill st e)
          (find_by-update_by_ne order_key j fill.client_order_id _ st.orders (λ x. refl) ne)
  ]

  -- The rows of the fills: one more for a known order.
  pub handle_fill-filled_of :
      (fill : Fill) (id : ℕ) (st : Store) {o : Order}
      → find_order fill.client_order_id st.orders ≡ some o
      → filled_of id (handle_fill autoflush quot now fill st).fills
        ≡ filled_of id st.fills + (if o.order_id == id then fill.qty else 0)
  unfolding apply_to_order fill_row
  handle_fill-filled_of fill id st {o} h =
      rw (handle_fill_known fill st h) (filled_of-append id st.fills (fill_row now o fill))

  -- What a fill of a known order changes: its own row's state, which leaves CANCELLED and EXPIRED
  -- alone and is otherwise FILLED or PARTIALLY_FILLED by the total counted; one more fill row; and
  -- no other order.
  pub handle_fill_effect :
      (fill : Fill) (j id : ℕ) (st : Store) {o : Order}
      → find_order fill.client_order_id st.orders ≡ some o
      → let st' = handle_fill autoflush quot now fill st in
        (find_order fill.client_order_id st'.orders
          ≡ some (record o { state = next_state autoflush o fill st.fills }))
        × (j ≢ fill.client_order_id → find_order j st'.orders ≡ find_order j st.orders)
        × (filled_of id st'.fills
            ≡ filled_of id st.fills + (if o.order_id == id then fill.qty else 0))
  handle_fill_effect fill j id st h =
      (handle_fill_self fill st h, handle_fill_ne fill j st, handle_fill-filled_of fill id st h)

-- A fill never revives an order that was cancelled or has expired: its row stays as it was, and the
-- shares are counted all the same.
pub late_fill_recorded :
    (autoflush : Bool) (quot : ℕ → ℕ → ℕ) (now : ℕ) (fill : Fill) (st : Store) {o : Order}
    → find_order fill.client_order_id st.orders ≡ some o
    → (o.state ≡ cancelled) ⊎ (o.state ≡ expired)
    → let st' = handle_fill autoflush quot now fill st in
      (find_order fill.client_order_id st'.orders ≡ some o)
      × (filled_of o.order_id st'.fills ≡ filled_of o.order_id st.fills + fill.qty)
unfolding state_after_fill
late_fill_recorded autoflush quot now fill st {o} h t = ground (
  arith,
  handle_fill_self autoflush quot now fill st h,
  handle_fill-filled_of autoflush quot now fill o.order_id st h,
)

-- A fill of an order that is not cancelled or expired leaves it FILLED exactly when its fills, and with
-- SQLAlchemy's default the last one once more, reach the ordered quantity.
pub filled_iff :
    (autoflush : Bool) (quot : ℕ → ℕ → ℕ) (now : ℕ) (fill : Fill) (st : Store) {o o' : Order}
    → find_order fill.client_order_id st.orders ≡ some o
    → o.state ≢ cancelled
    → o.state ≢ expired
    → find_order fill.client_order_id (handle_fill autoflush quot now fill st).orders ≡ some o'
    → (o'.state ≡ filled) ↔ (
        o'.qty
        ≤ filled_of o'.order_id (handle_fill autoflush quot now fill st).fills
          + (if autoflush then fill.qty else 0))
unfolding state_after_fill
filled_iff true quot now fill st {o} h nc ne h' = ground (
  arith,
  handle_fill_self true quot now fill st h,
  handle_fill-filled_of true quot now fill o.order_id st h,
)
filled_iff false quot now fill st {o} h nc ne h' = ground (
  arith,
  handle_fill_self false quot now fill st h,
  handle_fill-filled_of false quot now fill o.order_id st h,
)

-- With SQLAlchemy's default the fill's own row is counted twice: an order of which shares are still
-- outstanding is marked FILLED as soon as they are no more than the last fill's.
pub filled_early :
    (quot : ℕ → ℕ → ℕ) (now : ℕ) (fill : Fill) (st : Store) {o o' : Order}
    → find_order fill.client_order_id st.orders ≡ some o
    → is_open_state o.state ≡ true
    → filled_of o.order_id st.fills + fill.qty < o.qty
    → o.qty ≤ filled_of o.order_id st.fills + fill.qty + fill.qty
    → find_order fill.client_order_id (handle_fill true quot now fill st).orders ≡ some o'
    → (o'.state ≡ filled)
      × (filled_of o'.order_id (handle_fill true quot now fill st).fills < o'.qty)
unfolding state_after_fill is_open_state
filled_early quot now fill st {o} h op short near h' = ground (
  arith,
  handle_fill_self true quot now fill st h,
  handle_fill-filled_of true quot now fill o.order_id st h,
)
