-- ===== src/App/Service/Handler/Steps.antt =====
-- The parts of `_on_fill` keep the lots in memory in step with the rows of the database.
use short_trading_bot.Base.{
  ℕ, ◌+◌, ◌≡◌, refl, sym, ◌∙◌, inl, inr, Bool, true, false, ◌&&◌, ◌||◌, not, Option, none, some,
  List, [], ◌∷◌, ◌++◌, arith, ltb, leb, ◌==◌, if◌then◌else◌, is_some, update_by, find_by-update_by,
  find_by-key, find_by-append_new, find_by-append_ne, get_at, pop, Option-cases, Bool-cases,
  ℕ_discrete,
}
use short_trading_bot.Domain.Enums.{Side, buy, sell, cancelled}
use short_trading_bot.Domain.Position.{
  Lot, LotFill, Illegal, apply_fill, transition_to, is_open, is_closed,
}
use short_trading_bot.Execution.Types.{Fill}
use short_trading_bot.Execution.Store.{Order, PositionRow, position_key, find_position}
use short_trading_bot.Execution.OrderManager.{project}
use short_trading_bot.Execution.OrderManager.Projection.{Agrees, project-Agrees}
use short_trading_bot.Execution.Fx.{FxRates}
use short_trading_bot.App.Service.State.{
  World, PendingOrder, is_final, lot_key, lock_key, find_lot, set_lot, slot_of, put_slot,
}
use short_trading_bot.App.Service.Books.{adjust_cached_cash}
use short_trading_bot.App.Service.Restore.{lot_from_row, runtime_row, sync_runtime}
use short_trading_bot.App.Service.Handler.{
  adopt_reopened, retire_row, retire_idle_lot, apply_meta, after_apply, count_fill, meta_from_order,
  unlock, noted, counted, counts_today, closed_out, readopted, lot_fill, still_working, rebuilt,
  rebuild, relocked, remembered, finish_apply, reopen_in, is_idle,
}

-- Every lot in memory that has a row shows the same figures as the row.
abbrev pub InStep : List Lot → List PositionRow → Type 0
InStep lots rows =
    (id : ℕ) (lot : Lot) (row : PositionRow)
    → find_lot id lots ≡ some lot
    → find_position id rows ≡ some row
    → Agrees lot row

abbrev pub IsInStep : World → Type 0
IsInStep w = InStep w.lots w.store.positions

KeepsKey : (PositionRow → PositionRow) → Type 0
KeepsKey f = (row : PositionRow) → (f row).lot_id ≡ row.lot_id

both_assigned :
    (lots : List Lot) (rows : List PositionRow) (new : Lot) (k : ℕ) (f : PositionRow → PositionRow)
    → new.lot_id ≡ k
    → ((row : PositionRow) → (f row).lot_id ≡ row.lot_id)
    → ((row : PositionRow) → find_position k rows ≡ some row → Agrees new (f row))
    → InStep lots rows
    → InStep (update_by lot_key new.lot_id (λ _. new) lots) (update_by position_key k f rows)
both_assigned lots rows new k f key keep agree h id lot row el er =
    let fl = find_by-update_by lot_key id new.lot_id (λ _. new) lots (λ _ _. refl) in
    let fr = find_by-update_by position_key id k f rows (λ x e. keep x ∙ e) in
    elim (ℕ_discrete k id) [
      | no ne ↦ h id lot row (ground arith) (ground arith)
      | yes same ↦ elim (Option-cases (find_lot id lots)) [
        | inl e ↦ ground arith
        | inr (old, e) ↦ elim (Option-cases (find_position id rows)) [
          | inl e' ↦ ground arith
          | inr (r, e') ↦
              let l : lot ≡ new = ground arith in
              let m : row ≡ f r = ground arith in rw (l, m) (agree r (rw same e'))
        ]
      ]
    ]

pub row_assigned :
    (lots : List Lot) (rows : List PositionRow) (k : ℕ) (f : PositionRow → PositionRow)
    → ((row : PositionRow) → (f row).lot_id ≡ row.lot_id)
    → ((lot : Lot) (row : PositionRow)
        → find_lot k lots ≡ some lot
        → Agrees lot row
        → Agrees lot (f row))
    → InStep lots rows
    → InStep lots (update_by position_key k f rows)
row_assigned lots rows k f keep agree h id lot row el er =
    let fr = find_by-update_by position_key id k f rows (λ x e. keep x ∙ e) in
    elim (ℕ_discrete k id) [
      | no ne ↦ h id lot row el (ground arith)
      | yes same ↦ elim (Option-cases (find_position id rows)) [
        | inl e' ↦ ground arith
        | inr (r, e') ↦
            let m : row ≡ f r = ground arith in rw m (agree lot r (rw same el) (h id lot r el e'))
      ]
    ]

runtime_row-Agrees :
    (column : ℕ → ℕ) (lot by : Lot) (row : PositionRow)
    → Agrees lot row
    → Agrees lot (runtime_row column by row)
unfolding runtime_row
runtime_row-Agrees column lot by row a = ground arith

sync_runtime-IsInStep : (lot : Lot) (w : World) → IsInStep w → IsInStep (sync_runtime lot w)
unfolding sync_runtime runtime_row
sync_runtime-IsInStep lot w h =
    row_assigned w.lots w.store.positions lot.lot_id (runtime_row w.store.column lot) (λ _. refl)
      (λ l row _. runtime_row-Agrees w.store.column l lot row) h

-- a lot that waits no longer keeps its figures
cancelled_same :
    (lot : Lot)
    → let lot' = (transition_to cancelled lot).0 in
      (lot'.lot_id ≡ lot.lot_id)
      × (lot'.qty ≡ lot.qty)
      × (lot'.avg_entry ≡ lot.avg_entry)
      × (lot'.realized_pnl ≡ lot.realized_pnl)
unfolding transition_to
cancelled_same lot = ground arith

retire_row-Agrees :
    (now : ℕ) (lot : Lot) (row : PositionRow)
    → Agrees lot row
    → Agrees
        (transition_to cancelled lot).0
        (retire_row now (transition_to cancelled lot).0.state row)
unfolding retire_row
retire_row-Agrees now lot row a = ground (arith, cancelled_same lot)

retire_idle_lot-IsInStep :
    (now id : ℕ) (lot : Lot) (w : World)
    → find_lot id w.lots ≡ some lot
    → IsInStep w
    → IsInStep (retire_idle_lot now lot w)
unfolding retire_idle_lot retire_row
retire_idle_lot-IsInStep now id lot w e h =
    let lot' = (transition_to cancelled lot).0 in
    let key : lot.lot_id ≡ id = find_by-key lot_key id w.lots e in
    both_assigned w.lots w.store.positions lot' lot.lot_id (retire_row now lot'.state)
      (cancelled_same lot).0 (λ _. refl)
      (λ row f. retire_row-Agrees now lot row (h id lot row e (rw (sym key) f))) h

reopen_in-IsInStep :
    (now : ℕ) (lot : Lot) (slot : Option ℕ) (w : World)
    → IsInStep w
    → IsInStep (reopen_in now lot slot w)
unfolding put_slot
reopen_in-IsInStep now lot none w h = h
reopen_in-IsInStep now lot (some id) w h = elim (Bool-cases (id == lot.lot_id)) [
  | inl t ↦ rw t h
  | inr n ↦ elim (Option-cases (find_lot id w.lots)) [
    | inl e ↦ rw (n, e) h
    | inr (current, e) ↦ elim (Bool-cases (is_idle current w)) [
      | inl t ↦ rw (n, e, t) (retire_idle_lot-IsInStep now id current w e h)
      | inr f ↦ rw (n, e, f) h
    ]
  ]
]

adopt_reopened-IsInStep :
    (now : ℕ) (lot : Lot) (w : World) → IsInStep w → IsInStep (adopt_reopened now lot w)
unfolding adopt_reopened
adopt_reopened-IsInStep now lot w h =
    reopen_in-IsInStep now lot (slot_of (lot.ticker, lot.resolution) w.slots) w h

pub none_ne {ℓ} : {A : Type ℓ} {o : Option A} {lot : A} → o ≡ none → o ≡ some lot → ⊥
none_ne n l = cc

if-IsInStep : (b : Bool) (u v : World) → IsInStep u → IsInStep v → IsInStep (if b then u else v)
if-IsInStep true u v hu hv = hu
if-IsInStep false u v hu hv = hv

unlock-IsInStep : (key cid : ℕ) (w : World) → IsInStep w → IsInStep (unlock key cid w)
unlock-IsInStep key cid w h = elim (Option-cases (get_at key w.pending)) [
  | inl e ↦ rw (unlock, e) h
  | inr (held, e) ↦
      rw (unlock, e) (if-IsInStep (held == cid) (record w { pending = pop key w.pending }) w h h)
]

module _ (quot : ℕ → ℕ → ℕ) where
  apply_fill-lot_id : (f : LotFill) (lot : Lot) → (apply_fill quot f lot).0.lot_id ≡ lot.lot_id
  unfolding apply_fill transition_to
  apply_fill-lot_id f lot = ground arith

noted-IsInStep :
    (meta : PendingOrder) (fill : Fill) (w : World) → IsInStep w → IsInStep (noted meta fill w)
noted-IsInStep meta fill w h = elim (Bool-cases (is_some (get_at fill.client_order_id w.metas))) [
  | inl t ↦ rw (noted, t) h
  | inr f ↦ rw (noted, f) h
]

count_fill-IsInStep :
    (meta : PendingOrder) (fill : Fill) (w : World) → IsInStep w → IsInStep (count_fill meta fill w)
unfolding count_fill
count_fill-IsInStep meta fill w h =
    if-IsInStep (leb meta.requested_qty (meta.filled_qty + fill.qty))
      (closed_out meta fill (noted meta fill w)) (noted meta fill w)
      (unlock-IsInStep (lock_key meta.lot_id meta.side) fill.client_order_id (noted meta fill w)
        (noted-IsInStep meta fill w h))
      (noted-IsInStep meta fill w h)

counted-IsInStep :
    (old lot : Lot) (fill : Fill) (w : World) → IsInStep w → IsInStep (counted old lot fill w)
counted-IsInStep old lot fill w h = elim (Bool-cases (counts_today fill.ts w.daily_date)) [
  | inl t ↦ rw (counted, t) h
  | inr f ↦ rw (counted, f) h
]

after_apply-IsInStep :
    (now : ℕ) (old lot : Lot) (meta : PendingOrder) (fill : Fill) (w : World)
    → IsInStep (set_lot lot w)
    → IsInStep (after_apply now old lot meta fill w)
unfolding after_apply
after_apply-IsInStep now old lot meta fill w h =
    let w' = counted old lot fill (set_lot lot w) in
    let h' = counted-IsInStep old lot fill (set_lot lot w) h in
    count_fill-IsInStep meta fill (sync_runtime lot (readopted now old lot w')) (
      sync_runtime-IsInStep lot (readopted now old lot w') (
        if-IsInStep (is_closed old.state && is_open lot.state) (adopt_reopened now lot w') w'
          (adopt_reopened-IsInStep now lot w' h') h'))

finish_apply-IsInStep :
    (now : ℕ) (old : Lot) (out : Lot × Option Illegal) (meta : PendingOrder) (fill : Fill)
    (w : World)
    → IsInStep (set_lot out.0 w)
    → IsInStep (finish_apply now old out meta fill w).0
finish_apply-IsInStep now old (lot, some e) meta fill w h = h
finish_apply-IsInStep now old (lot, none) meta fill w h =
    after_apply-IsInStep now old lot meta fill w h

pub project-lot_id :
    (quot : ℕ → ℕ → ℕ) (now : ℕ) (side : Side) (fill : Fill) (row : PositionRow)
    → (project quot now side fill row).lot_id ≡ row.lot_id
unfolding project
project-lot_id quot now buy fill row = refl
project-lot_id quot now sell fill row = refl

module _ (autoflush : Bool) (quot : ℕ → ℕ → ℕ) (rates : FxRates) (now : ℕ) where
  -- a fill that the rows have taken in is taken in by the lot
  pub apply_meta-IsInStep :
      (meta : PendingOrder) (fill : Fill) (w : World) (rows : List PositionRow)
      → w.store.positions
        ≡ update_by position_key meta.lot_id (project quot now meta.side fill) rows
      → InStep w.lots rows
      → IsInStep (apply_meta autoflush quot rates now meta fill w).0
  unfolding apply_meta adjust_cached_cash
  apply_meta-IsInStep meta fill w rows e h = elim (Option-cases (find_lot meta.lot_id w.lots)) [
    | inl n ↦
        rw (n, apply_meta, e)
          (row_assigned w.lots rows meta.lot_id (project quot now meta.side fill)
            (project-lot_id quot now meta.side fill) (λ lot row l _. absurd (none_ne n l)) h)
    | inr (lot, l) ↦
        let new = (apply_fill quot (lot_fill meta fill) lot).0 in
        let key : new.lot_id ≡ meta.lot_id =
          apply_fill-lot_id quot (lot_fill meta fill) lot
          ∙ find_by-key lot_key meta.lot_id w.lots l in
        rw (l, apply_meta)
          (finish_apply-IsInStep now lot (apply_fill quot (lot_fill meta fill) lot) meta fill
            (adjust_cached_cash rates lot.currency meta.side fill w)
            (rw e (
              both_assigned w.lots rows new meta.lot_id (project quot now meta.side fill) key
                (project-lot_id quot now meta.side fill)
                (λ row f.
                  project-Agrees quot now meta.side meta.is_add fill lot row
                    (h meta.lot_id lot row l f))
                h)))
  ]

lot_from_row-Agrees :
    (row : PositionRow) {lot : Lot}
    → lot_from_row row ≡ some lot
    → (lot.lot_id ≡ row.lot_id) × Agrees lot row
unfolding lot_from_row
lot_from_row-Agrees row {lot} e = ground arith

-- a lot that was not in memory is added
added-InStep :
    (lots : List Lot) (rows : List PositionRow) (row : PositionRow) (lot : Lot)
    → find_lot lot.lot_id lots ≡ none
    → find_position lot.lot_id rows ≡ some row
    → Agrees lot row
    → InStep lots rows
    → InStep (lots ++ lot ∷ []) rows
added-InStep lots rows row lot n r a h id l x el er = elim (ℕ_discrete lot.lot_id id) [
  | yes same ↦
      let eq : l ≡ lot = ground (arith, find_by-append_new lot_key id lots lot) in
      let eqr : x ≡ row = ground arith in rw (eq, eqr) a
  | no ne ↦ h id l x (sym (find_by-append_ne lot_key id lots lot ne) ∙ el) er
]

still_working-IsInStep :
    (o : Order) (fill : Fill) (meta : PendingOrder) (w : World)
    → IsInStep w
    → IsInStep (still_working o fill meta w)
still_working-IsInStep o fill meta w h =
    elim (Bool-cases (ltb meta.filled_qty meta.requested_qty && not (is_final o.state))) [
      | inl t ↦ rw (still_working, t) h
      | inr f ↦ rw (still_working, f) h
    ]

rebuilt-IsInStep :
    (now : ℕ) (o : Order) (fill : Fill) (lot : Option Lot) (w : World)
    → ((l : Lot) → lot ≡ some l → InStep (w.lots ++ l ∷ []) w.store.positions)
    → IsInStep w
    → IsInStep (rebuilt now o fill lot w).0
rebuilt-IsInStep now o fill none w a h = h
rebuilt-IsInStep now o fill (some lot) w a h =
    let w' : World = record w { lots = w.lots ++ lot ∷ [] } in
    let meta = meta_from_order w.store o in
    adopt_reopened-IsInStep now lot (still_working o fill meta w')
      (still_working-IsInStep o fill meta w' (a lot refl))

pub rebuild-IsInStep :
    (now : ℕ) (o : Order) (fill : Fill) (row : Option PositionRow) (w : World)
    → find_lot o.lot_id w.lots ≡ none
    → find_position o.lot_id w.store.positions ≡ row
    → IsInStep w
    → IsInStep (rebuild now o fill row w).0
unfolding rebuild
rebuild-IsInStep now o fill none w n r h = h
rebuild-IsInStep now o fill (some row) w n r h =
    let key : row.lot_id ≡ o.lot_id = find_by-key position_key o.lot_id w.store.positions r in
    elim (Bool-cases (row.qty_filled == 0 || not (is_open row.state))) [
      | inl t ↦ rw (rebuild, t) h
      | inr f ↦
          rw (rebuild, f)
            (rebuilt-IsInStep now o fill (lot_from_row row) w
              (λ l e.
                let (same, a) = lot_from_row-Agrees row e in
                added-InStep w.lots w.store.positions row l (rw (same ∙ key) n) (rw (same ∙ key) r)
                  a h)
              h)
    ]

pub relocked_same :
    (o : Order) (fill : Fill) (meta : PendingOrder) (w : World)
    → let w' = relocked o fill meta (remembered o fill meta w) in
      (w'.lots ≡ w.lots) × (w'.store ≡ w.store)
relocked_same o fill meta w = ground arith
