-- ===== src/App/Service/Handler/Agreement.antt =====
-- The lots in memory and the rows of the database stay in step through `_on_fill`.
use short_trading_bot.Base.{
  ℕ, ◌-◌, ◌≡◌, refl, ap, ◌∙◌, inl, inr, Bool, some, List, [], ◌∷◌, update_by, get_at, Option-cases,
  Bool-cases,
}
use short_trading_bot.Execution.Types.{Fill}
use short_trading_bot.Execution.Store.{
  Store, Order, PositionRow, position_key, find_order, find_position,
}
use short_trading_bot.Execution.OrderManager.{handle_fill, apply_to_order, project}
use short_trading_bot.Execution.OrderManager.Fills.{
  handle_fill_known, handle_fill_missing, handle_fill_self, next_state,
}
use short_trading_bot.Execution.Fx.{FxRates}
use short_trading_bot.App.Service.State.{World, PendingOrder, find_lot}
use short_trading_bot.App.Service.Handler.{
  on_fill, on_fills, recover_fill, meta_from_order, relocked, remembered,
}
use short_trading_bot.App.Service.Handler.Links.{IsLinked, on_fill-IsLinked}
use short_trading_bot.App.Service.Handler.Steps.{
  relocked_same, InStep, IsInStep, row_assigned, rebuild-IsInStep, apply_meta-IsInStep,
  project-lot_id, none_ne,
}

module _ (autoflush : Bool) (quot : ℕ → ℕ → ℕ) (rates : FxRates) (now : ℕ) where
  recover_fill-IsInStep :
      (fill : Fill) (w : World) (o : Order) (rows : List PositionRow)
      → find_order fill.client_order_id w.store.orders ≡ some o
      → w.store.positions ≡ update_by position_key o.lot_id (project quot now o.side fill) rows
      → InStep w.lots rows
      → IsInStep (recover_fill autoflush quot rates now fill w).0
  unfolding recover_fill meta_from_order
  recover_fill-IsInStep fill w o rows f e h = elim (Option-cases (find_lot o.lot_id w.lots)) [
    | inl n ↦
        rw (recover_fill, f, n)
          (rebuild-IsInStep now o fill (find_position o.lot_id w.store.positions) w n refl (
            rw e (
              row_assigned w.lots rows o.lot_id (project quot now o.side fill)
                (project-lot_id quot now o.side fill) (λ lot row l _. absurd (none_ne n l)) h)))
    | inr (lot, l) ↦
        let whole = meta_from_order w.store o in
        let meta : PendingOrder = record whole { filled_qty = whole.filled_qty - fill.qty } in
        let (same_lots, same_store) = relocked_same o fill meta w in
        rw (recover_fill, f, l)
          (apply_meta-IsInStep autoflush quot rates now meta fill
            (relocked o fill meta (remembered o fill meta w)) rows
            (ap (λ st. st.positions) same_store ∙ e) (rw same_lots h))
  ]

  positions_after :
      (fill : Fill) (st : Store) {o : Order}
      → find_order fill.client_order_id st.orders ≡ some o
      → (handle_fill autoflush quot now fill st).positions
        ≡ update_by position_key o.lot_id (project quot now o.side fill) st.positions
  unfolding apply_to_order
  positions_after fill st f = rw (handle_fill_known autoflush quot now fill st f)

  abbrev filled : Fill → World → World
  filled fill w = record w { store = handle_fill autoflush quot now fill w.store }

  -- A fill keeps every lot in memory in step with its row, also for an order that the memory does not
  -- know, for a lot that is not in memory, and where the state machine refuses the fill.
  pub on_fill-IsInStep :
      (fill : Fill) (w : World)
      → IsLinked w
      → IsInStep w
      → IsInStep (on_fill autoflush quot rates now fill w).0
  unfolding on_fill
  on_fill-IsInStep fill w link h =
      elim (Option-cases (find_order fill.client_order_id w.store.orders)) [
        | inl n ↦ elim (Option-cases (get_at fill.client_order_id w.metas)) [
          | inl m ↦
              rw
                (on_fill, m, recover_fill, handle_fill_missing autoflush quot now fill w.store n, n)
                (rw (handle_fill_missing autoflush quot now fill w.store n) h)
          | inr (meta, m) ↦
              let (o, f, l, s) = link fill.client_order_id meta m in absurd (none_ne n f)
        ]
        | inr (o, f) ↦ elim (Option-cases (get_at fill.client_order_id w.metas)) [
          | inl m ↦
              rw (on_fill, m)
                (recover_fill-IsInStep fill (filled fill w)
                  (record o { state = next_state autoflush o fill w.store.fills }) w.store.positions
                  (handle_fill_self autoflush quot now fill w.store f)
                  (positions_after fill w.store f) h)
          | inr (meta, m) ↦
              let (o', f', l, s) = link fill.client_order_id meta m in
              let same : o' ≡ o = cc in
              rw (on_fill, m)
                (apply_meta-IsInStep autoflush quot rates now meta fill (filled fill w)
                  w.store.positions
                  (rw (l ∙ ap (λ x. x.lot_id) same, s ∙ ap (λ x. x.side) same)
                    (positions_after fill w.store f))
                  h)
        ]
      ]

  -- However many fills are handed over, the lots in memory stay in step with their rows, and what the
  -- memory keeps of the orders stays linked to the orders' rows; also where a handler raises.
  pub on_fills-IsInStep :
      (fills : List Fill) (w : World)
      → IsLinked w
      → IsInStep w
      → let w' = (on_fills autoflush quot rates now fills w).0 in IsLinked w' × IsInStep w'
  unfolding on_fills
  on_fills-IsInStep [] w l h = (l, h)
  on_fills-IsInStep (fill ∷ fills) w l h =
      let w' = (on_fill autoflush quot rates now fill w).0 in
      let l' = on_fill-IsLinked autoflush quot rates now fill w l in
      let h' = on_fill-IsInStep fill w l h in
      elim (Bool-cases (on_fill autoflush quot rates now fill w).1) [
        | inl t ↦ rw (on_fills, t) (l', h')
        | inr f ↦ rw (on_fills, f) (on_fills-IsInStep fills w' l' h')
      ]
