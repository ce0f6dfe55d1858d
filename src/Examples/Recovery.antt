-- ===== src/Examples/Recovery.antt =====
-- An order of ten shares whose submission timed out and that the broker has under the number 777.
use short_trading_bot.Base.{
  true, arith, ℕ, ◌+◌, ◌≡◌, refl, none, some, List, [], ◌∷◌, length, find_by,
}
use short_trading_bot.Domain.Enums.{buy, sell, unknown, new, rejected}
use short_trading_bot.Execution.Types.{OrderRecord}
use short_trading_bot.Execution.Store.{Store, Order}
use short_trading_bot.Execution.UnknownResolver.{
  Signature, same_signature, candidates, get_list, poll_once, linked, order_id_key, load_unknowns,
  is_adoptable, is_unresolved, group, append_to,
}
use short_trading_bot.Execution.UnknownResolver.Changes.{Pairwise, Change, poll_once_changes}
use short_trading_bot.Execution.Session.{order_in_session}
use short_trading_bot.Execution.Routing.{Router, get_daily_orders}
use short_trading_bot.Execution.Routing.Reads.{given_up_unseen}
use short_trading_bot.Examples.Orders.{store, order, evening}

abbrev listed : ℕ → OrderRecord
listed n = record { broker_order_no = n; ticker = 5930; side = buy; qty = 10 }

abbrev records : List OrderRecord
records = listed 777 ∷ record (listed 778) { side = sell } ∷ []

abbrev lost : Order
lost = record order { broker_order_no = none; state = unknown }

abbrev stranded : Store
stranded = record (store new) { orders = lost ∷ [] }

abbrev signature : Signature
signature = record { ticker = 5930; side = buy; qty = 10 }

poll_once_changes_example :
    let p = poll_once evening 180 stranded records stranded in
    Pairwise (Change evening 180 stranded records) (lost ∷ []) p.store.orders
    × (p.store.fills ≡ [])
    × (p.store.positions ≡ stranded.positions)
    × (length p.store.audit ≡ 0 + p.resolved)
poll_once_changes_example = poll_once_changes evening 180 stranded records stranded

-- a leg abroad that has failed twice
abbrev router : Router
router = record { overseas_fail = 2; executions_complete = true }

-- The sale of the same size does not stand for the purchase.
given_up_unseen_example :
    let home = record (listed 778) { side = sell } ∷ [] in
    let p =
      poll_once
        (evening + 200)
        180
        stranded
        (get_daily_orders home (some none) router).0
        stranded in
    (find_by order_id_key 70 p.store.orders ≡ some (record lost { state = rejected }))
    × (p.resolved ≡ 1)
unfolding load_unknowns candidates linked is_adoptable get_list group append_to same_signature
    is_unresolved order_in_session
given_up_unseen_example =
    given_up_unseen (evening + 200) 180 stranded stranded (lost, 5930) lost
      (record (listed 778) { side = sell } ∷ []) router refl refl refl refl refl (omega arith)
