-- ===== src/App/Service/Startup/Locks.antt =====
-- After a restart every order that may still be filled has a lock again.
use mathlib.Core.Path.{subst}
use short_trading_bot.Base.{
  ℕ, ◌≡◌, refl, sym, ◌∙◌, Bool, true, some, List, [], ◌∷◌, All, arith, is_some, get_at, get_at-put,
  Bool-cases, inl, inr,
}
use short_trading_bot.Domain.Position.{Lot}
use short_trading_bot.Execution.Store.{Store, Order, PositionRow, find_position}
use short_trading_bot.Execution.OrderManager.{returned, raised}
use short_trading_bot.App.Service.State.{World, lock_key, find_lot, put_lot}
use short_trading_bot.App.Service.Restore.{lot_from_row}
use short_trading_bot.App.Service.Orders.{Run, and_then}
use short_trading_bot.App.Service.Startup.{relock, with_owner, lock_open_order, lock_open_orders}

-- the order's lot has a row that can be read
abbrev pub IsOwned : Store → Order → Type 0
IsOwned st o =
    (row : PositionRow) × (find_position o.lot_id st.positions ≡ some row)
    × ((lot : Lot) × (lot_from_row row ≡ some lot))

abbrev pub is_locked : World → Order → Bool
is_locked w o = is_some (get_at (lock_key o.lot_id o.side) w.pending)

-- what is locked stays locked
abbrev Grows : World → World → Type 0
Grows w w' = (j : ℕ) → is_some (get_at j w.pending) ≡ true → is_some (get_at j w'.pending) ≡ true

relock-Grows : (o : Order) (w : World) → Grows w (relock o w) × (is_locked (relock o w) o ≡ true)
unfolding relock
relock-Grows o w = (
  λ j h. ground (arith, get_at-put j (lock_key o.lot_id o.side) o.client_order_id w.pending),
  ground (
    arith,
    get_at-put (lock_key o.lot_id o.side) (lock_key o.lot_id o.side) o.client_order_id w.pending,
  ),
)

relock-store : (o : Order) (w : World) → (relock o w).store ≡ w.store
unfolding relock
relock-store o w = refl

put_lot_same :
    (lot : Lot) (w : World)
    → ((put_lot lot w).store ≡ w.store) × ((put_lot lot w).pending ≡ w.pending)
put_lot_same lot w = elim (Bool-cases (is_some (find_lot lot.lot_id w.lots))) [
  | inl t ↦ rw (put_lot, t) (refl, refl)
  | inr f ↦ rw (put_lot, f) (refl, refl)
]

-- what the lock of an order leaves
abbrev Locked : Order → World → Run Unit → Type 0
Locked o w r = (r.1 ≡ returned tt) × (r.0.store ≡ w.store) × Grows w r.0 × (is_locked r.0 o ≡ true)

lock_open_order-Locked :
    (o : Order) (w : World) → IsOwned w.store o → Locked o w (lock_open_order o w)
unfolding lock_open_order
lock_open_order-Locked o w (row, f, read) =
    let (lot, e) = read in
    elim (Bool-cases (is_some (find_lot o.lot_id w.lots))) [
      | inl t ↦
          let (g, k) = relock-Grows o w in rw (lock_open_order, t) (refl, relock-store o w, g, k)
      | inr n ↦
          let (same, locks) = put_lot_same lot w in
          let (g, k) = relock-Grows o (put_lot lot w) in
          rw (lock_open_order, n, f, with_owner, e)
            (refl, relock-store o (put_lot lot w) ∙ same, λ j h. g j (rw locks h), k)
    ]

and_then_lem :
    {A B : Type 0} (r : Run A) (f : A → World → Run B) {a : A}
    → r.1 ≡ returned a
    → and_then r f ≡ f a r.0
and_then_lem (w, raised) f h = cc
and_then_lem (w, returned b) f h = cc

lock_open_orders_step :
    (o : Order) (orders : List Order) (w : World)
    → (lock_open_order o w).1 ≡ returned tt
    → lock_open_orders (o ∷ orders) w ≡ lock_open_orders orders (lock_open_order o w).0
unfolding lock_open_orders
lock_open_orders_step o orders w e =
    and_then_lem (lock_open_order o w) (λ _. lock_open_orders orders) e

-- the loop ends, keeps what is locked, and every order has its lot and side locked
abbrev pub AllLocked : List Order → World → Run Unit → Type 0
AllLocked orders w r =
    (r.1 ≡ returned tt)
    × ((j : ℕ) → is_some (get_at j w.pending) ≡ true → is_some (get_at j r.0.pending) ≡ true)
    × All (λ o. is_locked r.0 o ≡ true) orders

-- If the lots of the open orders have rows that can be read, the loop over the open orders ends, no
-- lock is lost, and every order of the list has its lot and side locked.
pub lock_open_orders_lem :
    (orders : List Order) (w : World)
    → All (IsOwned w.store) orders
    → AllLocked orders w (lock_open_orders orders w)
unfolding lock_open_orders
lock_open_orders_lem [] w h = (refl, λ j k. k, tt)
lock_open_orders_lem (o ∷ orders) w (h, hs) =
    let (e, st, g, k) = lock_open_order-Locked o w h in
    let (e', g', ks) = lock_open_orders_lem orders (lock_open_order o w).0 (rw st hs) in
    subst (AllLocked (o ∷ orders) w) (sym (lock_open_orders_step o orders w e))
      (e', λ j x. g' j (g j x), (g' (lock_key o.lot_id o.side) k, ks))
