-- ===== src/Execution/OrderManager/Expiry.antt =====
-- The expiry of the orders of earlier sessions, and the orders that a restart finds half sent.
use short_trading_bot.Base.{
  ℕ, ◌+◌, ◌<◌, ◌≡◌, refl, ◌∙◌, ap, ◌≢◌, ◌⊎◌, inl, true, some, List, [], ◌∷◌, map, All, arith,
  contains, length, find_by-map, length-append_map,
}
use short_trading_bot.Domain.Enums.{Market, pending_new, unknown, expired, is_overseas}
use short_trading_bot.Execution.Store.{Store, Order, PositionRow, known, order_key, find_order}
use short_trading_bot.Execution.Session.{order_in_session}
use short_trading_bot.Execution.OrderManager.{
  is_open_state, market_of, expire_row, expire_stale, orphan_row, orphan_pending_to_unknown,
}

module _ (now : ℕ) (keep : List ℕ) (positions : List PositionRow) where
  -- which orders may stay open
  abbrev pub IsCurrent : Order → Type 0
  IsCurrent o =
      (is_open_state o.state ≡ true)
      → (order_in_session o.created_at (market_of positions o) now ≡ true)
        ⊎ (contains o.order_id keep ≡ true)

  expire_row-IsCurrent : (o : Order) → IsCurrent (expire_row now keep positions o)
  unfolding expire_row is_open_state
  expire_row-IsCurrent o = ground arith

  expire_row_current : (o : Order) → IsCurrent o → expire_row now keep positions o ≡ o
  unfolding expire_row
  expire_row_current o h = ground arith

  expire_row_past :
      (o : Order) → ¬ IsCurrent o → expire_row now keep positions o ≡ record o { state = expired }
  unfolding expire_row
  expire_row_past o h = ground arith

  expire_rows-IsCurrent : (os : List Order) → All IsCurrent (map (expire_row now keep positions) os)
  expire_rows-IsCurrent [] = tt
  expire_rows-IsCurrent (o ∷ os) = (expire_row-IsCurrent o, expire_rows-IsCurrent os)

  expire_row-key : (o : Order) → order_key (expire_row now keep positions o) ≡ order_key o
  unfolding expire_row
  expire_row-key o = ground arith

-- Afterwards every open order is of the session of now, or kept on purpose; every other order is as
-- it was; and the number that is reported is the number of entries that the log has gained.
pub expire_stale_lem :
    (now : ℕ) (keep : List ℕ) (st : Store)
    → let (st', count) = expire_stale now keep st in
      All (IsCurrent now keep st.positions) st'.orders
      × ((cid : ℕ) (o : Order)
          → find_order cid st.orders ≡ some o
          → (IsCurrent now keep st.positions o → find_order cid st'.orders ≡ some o)
            × (¬ IsCurrent now keep st.positions o
                → find_order cid st'.orders ≡ some (record o { state = expired })))
      × (length st'.audit ≡ length st.audit + count)
      × (st'.positions ≡ st.positions)
      × (st'.fills ≡ st.fills)
unfolding expire_stale
expire_stale_lem now keep st = (
  expire_rows-IsCurrent now keep st.positions st.orders,
  λ cid o h.
      let row : find_order cid (map (expire_row now keep st.positions) st.orders)
          ≡ some (expire_row now keep st.positions o) =
        find_by-map order_key cid (expire_row now keep st.positions) st.orders
          (expire_row-key now keep st.positions) h in
      (
        λ c. row ∙ ap some (expire_row_current now keep st.positions o c),
        λ n. row ∙ ap some (expire_row_past now keep st.positions o n),
      ),
  length-append_map _ _ st.audit,
  refl,
  refl,
)

-- A live order abroad is not expired: within 24 hours of its creation its row stays, whatever the
-- date in Korea, and whatever the list of exceptions.
pub overseas_order_kept :
    (now : ℕ) (keep : List ℕ) (st : Store) (cid : ℕ) {o : Order} {m : Market}
    → find_order cid st.orders ≡ some o
    → market_of st.positions o ≡ some (known m)
    → is_overseas m ≡ true
    → now < o.created_at + 86400
    → find_order cid (expire_stale now keep st).0.orders ≡ some o
overseas_order_kept now keep st cid {o} h m k t =
    ((expire_stale_lem now keep st).1 cid o h).0
      (λ _. inl (unfold order_in_session in ground arith))

orphan_rows : (os : List Order) → All (λ o. o.state ≢ pending_new) (map orphan_row os)
unfolding orphan_row
orphan_rows [] = tt
orphan_rows (o ∷ os) = (ground arith, orphan_rows os)

orphan_row-key : (o : Order) → order_key (orphan_row o) ≡ order_key o
unfolding orphan_row
orphan_row-key o = ground arith

orphan_row_lem :
    (o : Order)
    → (o.state ≡ pending_new → orphan_row o ≡ record o { state = unknown })
      × (o.state ≢ pending_new → orphan_row o ≡ o)
unfolding orphan_row
orphan_row_lem o = ground arith

-- At a restart every order that was being sent becomes UNKNOWN, no other order changes, and the
-- number reported is the number of entries that the log has gained.
pub orphan_pending_lem :
    (st : Store)
    → let (st', count) = orphan_pending_to_unknown st in
      All (λ o. o.state ≢ pending_new) st'.orders
      × ((cid : ℕ) (o : Order)
          → find_order cid st.orders ≡ some o
          → (o.state ≡ pending_new
              → find_order cid st'.orders ≡ some (record o { state = unknown }))
            × (o.state ≢ pending_new → find_order cid st'.orders ≡ some o))
      × (length st'.audit ≡ length st.audit + count)
unfolding orphan_pending_to_unknown
orphan_pending_lem st = (
  orphan_rows st.orders,
  λ cid o h.
      let row : find_order cid (map orphan_row st.orders) ≡ some (orphan_row o) =
        find_by-map order_key cid orphan_row st.orders orphan_row-key h in
      (λ p. row ∙ ap some ((orphan_row_lem o).0 p), λ n. row ∙ ap some ((orphan_row_lem o).1 n)),
  length-append_map _ _ st.audit,
)
