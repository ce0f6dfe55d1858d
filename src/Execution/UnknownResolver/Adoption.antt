-- ===== src/Execution/UnknownResolver/Adoption.antt =====
-- When the resolver gives an order up.
use short_trading_bot.Base.{
  ℕ, ◌≡◌, refl, ap, ◌∙◌, false, some, List, [], ◌∷◌, find_by, find_by-key, find_by-update_by_self,
  update_by, arith, ltb, ◌+◌, ◌≤◌,
}
use short_trading_bot.Domain.Enums.{rejected, unknown}
use short_trading_bot.Execution.Types.{OrderRecord}
use short_trading_bot.Execution.Store.{Order, Store}
use short_trading_bot.Execution.UnknownResolver.{
  order_id_key, load_unknowns, linked, order_signature, get_list, candidates, by_signature, group,
  append_to, resolve_group, resolve_groups, poll_once, expire_one, expire_found, expire_group,
}

-- the row that was found is the one that is assigned to
assigned :
    (id : ℕ) (f : Order → Order) (orders : List Order) (row : Order)
    → find_by order_id_key id orders ≡ some row
    → (f row).order_id ≡ row.order_id
    → find_by order_id_key id (update_by order_id_key row.order_id f orders) ≡ some (f row)
assigned id f orders row e k =
    let same = find_by-key order_id_key id orders e in
    ap (λ j. find_by order_id_key id (update_by order_id_key j f orders)) same
    ∙ find_by-update_by_self order_id_key id f orders k e

module _ (now grace : ℕ) (before : Store) (records : List OrderRecord) (after : Store)
    (x : Order × ℕ) (row : Order) where
  -- The one unresolved order is given up when the broker lists no free number with its signature and
  -- the grace time is over.
  pub poll_once_gives_up :
      load_unknowns now before ≡ x ∷ []
      → get_list (order_signature x) (candidates (linked now before) records) ≡ []
      → find_by order_id_key x.0.order_id after.orders ≡ some row
      → x.0.state ≡ unknown
      → row.state ≡ unknown
      → x.0.created_at + grace ≤ now
      → let p = poll_once now grace before records after in
        (find_by order_id_key x.0.order_id p.store.orders ≡ some (record row { state = rejected }))
        × (p.resolved ≡ 1)
        × (p.adopted ≡ [])
  unfolding poll_once by_signature group append_to resolve_groups resolve_group expire_group
      expire_one expire_found
  poll_once_gives_up one off e s s' old =
      let young = late now (x.0.created_at + grace) old in
      rw (one, off, s, young, e, s')
        (
          assigned x.0.order_id (λ o. record o { state = rejected }) after.orders row e refl,
          refl,
          refl,
        )
    where
      late : (a b : ℕ) → b ≤ a → ltb a b ≡ false
      late a b h = ground arith
