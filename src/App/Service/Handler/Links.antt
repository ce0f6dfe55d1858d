-- ===== src/App/Service/Handler/Links.antt =====
-- What the memory keeps of an order names the lot and the side of the order's row.
use short_trading_bot.Base.{
  ℕ, ◌+◌, ◌-◌, ◌≡◌, refl, sym, ap, ◌∙◌, inl, inr, Bool, true, false, ◌&&◌, ◌||◌, not, Option, none,
  some, List, [], ◌∷◌, ◌++◌, arith, ltb, leb, ◌==◌, if◌then◌else◌, is_some, get_at, put, pop,
  get_at-put, get_at-pop, Option-cases, Bool-cases, ℕ_discrete,
}
use short_trading_bot.Domain.Position.{Lot, Illegal, apply_fill, is_open, is_closed}
use short_trading_bot.Execution.Types.{Fill}
use short_trading_bot.Execution.Store.{Store, Order, PositionRow, find_order, find_position}
use short_trading_bot.Execution.OrderManager.{handle_fill, is_open_state, is_filled}
use short_trading_bot.Execution.OrderManager.Fills.{handle_fill_self, handle_fill_ne, next_state}
use short_trading_bot.Execution.Fx.{FxRates}
use short_trading_bot.App.Service.State.{
  World, PendingOrder, is_final, lock_key, find_lot, set_lot, slot_of, put_slot,
}
use short_trading_bot.App.Service.Books.{adjust_cached_cash}
use short_trading_bot.App.Service.Restore.{lot_from_row, sync_runtime}
use short_trading_bot.App.Service.Handler.{
  adopt_reopened, retire_idle_lot, on_fill, apply_meta, after_apply, count_fill, recover_fill,
  meta_from_order, unlock, noted, counted, counts_today, closed_out, readopted, lot_fill,
  still_working, rebuild, relocked, remembered, finish_apply, reopen_in, is_idle,
}
use short_trading_bot.App.Service.Handler.Steps.{relocked_same}

-- the row of an order, with the lot and side of what the memory keeps of it
abbrev pub HasRow : ℕ → PendingOrder → List Order → Type 0
HasRow cid meta orders =
    (o : Order) × (find_order cid orders ≡ some o) × (meta.lot_id ≡ o.lot_id) × (meta.side ≡ o.side)

abbrev pub Linked : List (ℕ × PendingOrder) → List Order → Type 0
Linked metas orders =
    (cid : ℕ) (meta : PendingOrder) → get_at cid metas ≡ some meta → HasRow cid meta orders

-- What the memory keeps of an order names the lot and the side of the order's row.
abbrev pub IsLinked : World → Type 0
IsLinked w = Linked w.metas w.store.orders

pub put-Linked :
    (metas : List (ℕ × PendingOrder)) (orders : List Order) (k : ℕ) (m : PendingOrder)
    → HasRow k m orders
    → Linked metas orders
    → Linked (put k m metas) orders
put-Linked metas orders k m r h cid meta e = elim (ℕ_discrete k cid) [
  | yes same ↦ let eq : meta ≡ m = ground (arith, get_at-put cid k m metas) in rw (eq, sym same) r
  | no ne ↦ h cid meta (ground (arith, get_at-put cid k m metas))
]

pub pop-Linked :
    (metas : List (ℕ × PendingOrder)) (orders : List Order) (k : ℕ)
    → Linked metas orders
    → Linked (pop k metas) orders
pop-Linked metas orders k h cid meta e = h cid meta (ground (arith, get_at-pop cid k metas))

-- the metas and the orders are the same
abbrev Untouched : World → World → Type 0
Untouched w' w = (w'.metas ≡ w.metas) × (w'.store.orders ≡ w.store.orders)

reopen_in-Untouched :
    (now : ℕ) (lot : Lot) (slot : Option ℕ) (w : World) → Untouched (reopen_in now lot slot w) w
unfolding put_slot retire_idle_lot
reopen_in-Untouched now lot none w = (refl, refl)
reopen_in-Untouched now lot (some id) w = elim (Bool-cases (id == lot.lot_id)) [
  | inl t ↦ rw t (refl, refl)
  | inr n ↦ elim (Option-cases (find_lot id w.lots)) [
    | inl e ↦ rw (n, e) (refl, refl)
    | inr (current, e) ↦ elim (Bool-cases (is_idle current w)) [
      | inl t ↦ rw (n, e, t) (refl, refl)
      | inr f ↦ rw (n, e, f) (refl, refl)
    ]
  ]
]

adopt_reopened-Untouched :
    (now : ℕ) (lot : Lot) (w : World) → Untouched (adopt_reopened now lot w) w
unfolding adopt_reopened
adopt_reopened-Untouched now lot w =
    reopen_in-Untouched now lot (slot_of (lot.ticker, lot.resolution) w.slots) w

if-IsLinked : (b : Bool) (u v : World) → IsLinked u → IsLinked v → IsLinked (if b then u else v)
if-IsLinked true u v hu hv = hu
if-IsLinked false u v hu hv = hv

unlock-Untouched : (key cid : ℕ) (w : World) → Untouched (unlock key cid w) w
unlock-Untouched key cid w = elim (Option-cases (get_at key w.pending)) [
  | inl e ↦ rw (unlock, e) (refl, refl)
  | inr (held, e) ↦ elim (Bool-cases (held == cid)) [
    | inl t ↦ rw (unlock, e, t) (refl, refl)
    | inr f ↦ rw (unlock, e, f) (refl, refl)
  ]
]

count_fill-IsLinked :
    (meta : PendingOrder) (fill : Fill) (w : World)
    → HasRow fill.client_order_id meta w.store.orders
    → IsLinked w
    → IsLinked (count_fill meta fill w)
unfolding count_fill
count_fill-IsLinked meta fill w r h =
    let key = lock_key meta.lot_id meta.side in
    let noted_linked : IsLinked (noted meta fill w) =
      if-IsLinked (is_some (get_at fill.client_order_id w.metas))
        (record w {
          metas =
              put fill.client_order_id (record meta { filled_qty = meta.filled_qty + fill.qty })
                w.metas;
        })
        w
        (put-Linked w.metas w.store.orders fill.client_order_id
          (record meta { filled_qty = meta.filled_qty + fill.qty }) r h)
        h in
    let (m, o) = unlock-Untouched key fill.client_order_id (noted meta fill w) in
    if-IsLinked (leb meta.requested_qty (meta.filled_qty + fill.qty))
      (closed_out meta fill (noted meta fill w)) (noted meta fill w)
      (rw (m, o)
        (pop-Linked (noted meta fill w).metas (noted meta fill w).store.orders fill.client_order_id
          noted_linked))
      noted_linked

counted-Untouched : (old lot : Lot) (fill : Fill) (w : World) → Untouched (counted old lot fill w) w
counted-Untouched old lot fill w = elim (Bool-cases (counts_today fill.ts w.daily_date)) [
  | inl t ↦ rw (counted, t) (refl, refl)
  | inr f ↦ rw (counted, f) (refl, refl)
]

readopted-Untouched : (now : ℕ) (old lot : Lot) (w : World) → Untouched (readopted now old lot w) w
readopted-Untouched now old lot w = elim (Bool-cases (is_closed old.state && is_open lot.state)) [
  | inl t ↦ rw (readopted, t) (adopt_reopened-Untouched now lot w)
  | inr f ↦ rw (readopted, f) (refl, refl)
]

finish_apply-IsLinked :
    (now : ℕ) (old : Lot) (out : Lot × Option Illegal) (meta : PendingOrder) (fill : Fill)
    (w : World)
    → HasRow fill.client_order_id meta w.store.orders
    → IsLinked w
    → IsLinked (finish_apply now old out meta fill w).0
unfolding after_apply sync_runtime
finish_apply-IsLinked now old (lot, some e) meta fill w r h = h
finish_apply-IsLinked now old (lot, none) meta fill w r h =
    let w1 = counted old lot fill (set_lot lot w) in
    let w2 = readopted now old lot w1 in
    let (m1, o1) = counted-Untouched old lot fill (set_lot lot w) in
    let (m2, o2) = readopted-Untouched now old lot w1 in
    count_fill-IsLinked meta fill (sync_runtime lot w2) (rw (o2 ∙ o1) r) (rw (m2 ∙ m1, o2 ∙ o1) h)

still_working-IsLinked :
    (o : Order) (fill : Fill) (meta : PendingOrder) (w : World)
    → HasRow fill.client_order_id meta w.store.orders
    → IsLinked w
    → IsLinked (still_working o fill meta w)
still_working-IsLinked o fill meta w r h =
    if-IsLinked (ltb meta.filled_qty meta.requested_qty && not (is_final o.state))
      (record w {
        metas = put fill.client_order_id meta w.metas;
        pending = put (lock_key meta.lot_id meta.side) fill.client_order_id w.pending;
      })
      w (put-Linked w.metas w.store.orders fill.client_order_id meta r h) h

rebuild-IsLinked :
    (now : ℕ) (o : Order) (fill : Fill) (row : Option PositionRow) (w : World)
    → find_order fill.client_order_id w.store.orders ≡ some o
    → IsLinked w
    → IsLinked (rebuild now o fill row w).0
unfolding rebuild meta_from_order
rebuild-IsLinked now o fill none w f h = h
rebuild-IsLinked now o fill (some row) w f h =
    elim (Bool-cases (row.qty_filled == 0 || not (is_open row.state))) [
      | inl t ↦ rw (rebuild, t) h
      | inr n ↦ elim (Option-cases (lot_from_row row)) [
        | inl e ↦ rw (rebuild, n, e) h
        | inr (lot, e) ↦
            let w' : World = record w { lots = w.lots ++ lot ∷ [] } in
            let w'' = still_working o fill (meta_from_order w.store o) w' in
            let (m, os) = adopt_reopened-Untouched now lot w'' in
            rw (rebuild, n, e, m, os)
              (still_working-IsLinked o fill (meta_from_order w.store o) w' (o, f, refl, refl) h)
      ]
    ]

relocked-Untouched :
    (o : Order) (fill : Fill) (meta : PendingOrder) (w : World)
    → Untouched (relocked o fill meta w) w
relocked-Untouched o fill meta w =
    elim (Bool-cases (
      is_open_state o.state && not (is_some (get_at (lock_key meta.lot_id meta.side) w.pending)))) [
        | inl t ↦ rw (relocked, t) (refl, refl)
        | inr f ↦ rw (relocked, f) (refl, refl)
      ]

remembered-IsLinked :
    (o : Order) (fill : Fill) (meta : PendingOrder) (w : World)
    → HasRow fill.client_order_id meta w.store.orders
    → IsLinked w
    → IsLinked (remembered o fill meta w)
remembered-IsLinked o fill meta w r h =
    if-IsLinked (not (is_final o.state) || is_filled o.state)
      (record w { metas = put fill.client_order_id meta w.metas }) w
      (put-Linked w.metas w.store.orders fill.client_order_id meta r h) h

module _ (autoflush : Bool) (quot : ℕ → ℕ → ℕ) (rates : FxRates) (now : ℕ) where
  handle_fill-Linked :
      (metas : List (ℕ × PendingOrder)) (fill : Fill) (st : Store)
      → Linked metas st.orders
      → Linked metas (handle_fill autoflush quot now fill st).orders
  handle_fill-Linked metas fill st h cid meta e =
      let (o, f, l, s) = h cid meta e in
      elim (ℕ_discrete cid fill.client_order_id) [
        | yes same ↦ (
          record o { state = next_state autoflush o fill st.fills },
          rw same (handle_fill_self autoflush quot now fill st (rw (sym same) f)),
          l,
          s,
        )
        | no ne ↦ (o, handle_fill_ne autoflush quot now fill cid st ne ∙ f, l, s)
      ]

  apply_meta-IsLinked :
      (meta : PendingOrder) (fill : Fill) (w : World)
      → HasRow fill.client_order_id meta w.store.orders
      → IsLinked w
      → IsLinked (apply_meta autoflush quot rates now meta fill w).0
  unfolding apply_meta adjust_cached_cash
  apply_meta-IsLinked meta fill w r h = elim (Option-cases (find_lot meta.lot_id w.lots)) [
    | inl n ↦ rw (apply_meta, n) h
    | inr (lot, l) ↦
        rw (apply_meta, l)
          (finish_apply-IsLinked now lot (apply_fill quot (lot_fill meta fill) lot) meta fill
            (adjust_cached_cash rates lot.currency meta.side fill w) r h)
  ]

  recover_fill-IsLinked :
      (fill : Fill) (w : World)
      → IsLinked w
      → IsLinked (recover_fill autoflush quot rates now fill w).0
  unfolding recover_fill meta_from_order
  recover_fill-IsLinked fill w h =
      elim (Option-cases (find_order fill.client_order_id w.store.orders)) [
        | inl n ↦ rw (recover_fill, n) h
        | inr (o, f) ↦ elim (Option-cases (find_lot o.lot_id w.lots)) [
          | inl n ↦
              rw (recover_fill, f, n)
                (rebuild-IsLinked now o fill (find_position o.lot_id w.store.positions) w f h)
          | inr (lot, l) ↦
              let whole = meta_from_order w.store o in
              let meta : PendingOrder = record whole { filled_qty = whole.filled_qty - fill.qty } in
              let w1 = remembered o fill meta w in
              let row : HasRow fill.client_order_id meta w.store.orders = (o, f, refl, refl) in
              let (m, os) = relocked-Untouched o fill meta w1 in
              let (same_lots, same_store) = relocked_same o fill meta w in
              rw (recover_fill, f, l)
                (apply_meta-IsLinked meta fill (relocked o fill meta w1)
                  (rw (ap (λ st. st.orders) same_store) row)
                  (rw (m, os) (remembered-IsLinked o fill meta w row h)))
        ]
      ]

  pub on_fill-IsLinked :
      (fill : Fill) (w : World) → IsLinked w → IsLinked (on_fill autoflush quot rates now fill w).0
  unfolding on_fill
  on_fill-IsLinked fill w h =
      let w' : World = record w { store = handle_fill autoflush quot now fill w.store } in
      let h' : IsLinked w' = handle_fill-Linked w.metas fill w.store h in
      elim (Option-cases (get_at fill.client_order_id w.metas)) [
        | inl n ↦ rw (on_fill, n) (recover_fill-IsLinked fill w' h')
        | inr (meta, m) ↦
            rw (on_fill, m) (apply_meta-IsLinked meta fill w' (h' fill.client_order_id meta m) h')
      ]
