-- ===== src/App/Service/Orders/Upkeep.antt =====
-- `_submit` and `_cancel_pending` keep memory and database in agreement, fills within them included.
use short_trading_bot.Base.{
  ℕ, ◌≡◌, refl, Bool, true, false, ◌||◌, List, arith, contains, get_at, find_by-update_by,
  update_by, Option-cases, Bool-cases, inl, inr, ℕ_discrete,
}
use short_trading_bot.Domain.Enums.{Side, buy, sell, cancelled}
use short_trading_bot.Domain.Position.{Lot}
use short_trading_bot.Execution.Types.{OrderRequest, OrderAck}
use short_trading_bot.Execution.Store.{Store, find_order, order_key}
use short_trading_bot.Execution.OrderManager.{
  Reply, acked, refused, failed, returned, raised, conclude_cancel, cancel_reply, is_cancel_noop,
  is_unknown, is_filled,
}
use short_trading_bot.App.Service.State.{World, PendingOrder, lock_key, add_to}
use short_trading_bot.App.Service.Handler.Links.{Linked, pop-Linked}
use short_trading_bot.App.Service.Polling.Agreement.{IsAgreed}
use short_trading_bot.App.Service.Orders.{
  Outside, Run, and_then, Next, submit, release_if_terminal, past_barrier, past_lock, after_release,
  after_cancel, cancel_pending, cancel_request, cancel_sent, cancel_in, forget, place, pushed,
}
use short_trading_bot.App.Service.Orders.Locks.{IsFresh}
use short_trading_bot.App.Service.Orders.Agreement.{
  pushed-IsAgreed, release-IsAgreed, place-IsAgreed, KeepsNext, refresh_then-IsAgreed,
  go_on-IsAgreed,
}

cancelled-Linked :
    (k : ℕ) (metas : List (ℕ × PendingOrder)) (st : Store)
    → Linked metas st.orders
    → Linked metas (update_by order_key k (λ x. record x { state = cancelled }) st.orders)
cancelled-Linked k metas st h cid meta e =
    let (o, f, l, s) = h cid meta e in
    let at =
      find_by-update_by order_key cid k (λ x. record x { state = cancelled }) st.orders
        (λ _ e. e) in
    elim (ℕ_discrete k cid) [
      | yes same ↦ (record o { state = cancelled }, ground arith, l, s)
      | no ne ↦ (o, ground arith, l, s)
    ]

conclude_cancel_same :
    (req : OrderRequest) (ack : OrderAck) (metas : List (ℕ × PendingOrder)) (st : Store)
    → Linked metas st.orders
    → ((conclude_cancel req ack st).positions ≡ st.positions)
      × Linked metas (conclude_cancel req ack st).orders
unfolding conclude_cancel
conclude_cancel_same req ack metas st h = elim (Bool-cases ack.accepted) [
  | inr n ↦ rw (n, conclude_cancel) (refl, h)
  | inl t ↦ elim (Option-cases (find_order req.client_order_id st.orders)) [
    | inl e ↦ rw (t, e, conclude_cancel) (refl, h)
    | inr (o, e) ↦ elim (Bool-cases (is_filled o.state)) [
      | inl f ↦ rw (t, e, conclude_cancel, f) (refl, h)
      | inr f ↦
          rw (t, e, conclude_cancel, f) (refl, cancelled-Linked req.client_order_id metas st h)
    ]
  ]
]

cancel_in-IsAgreed :
    (env : Outside) (req : OrderRequest) (reply : Reply) (out : World × Bool)
    → IsAgreed out.0
    → IsAgreed (cancel_in env req reply out).0
unfolding cancel_reply
cancel_in-IsAgreed env req reply (w, true) a = record {
  is_linked = a.is_linked;
  is_in_step = a.is_in_step;
}
cancel_in-IsAgreed env req (acked ack) (w, false) a =
    let (p, l) = conclude_cancel_same req ack w.metas w.store a.is_linked in
    record { is_linked = l; is_in_step = rw p a.is_in_step }
cancel_in-IsAgreed env req (refused text) (w, false) a = record {
  is_linked = a.is_linked;
  is_in_step = a.is_in_step;
}
cancel_in-IsAgreed env req failed (w, false) a = record {
  is_linked = a.is_linked;
  is_in_step = a.is_in_step;
}

cancel_sent-IsAgreed :
    (env : Outside) (req : OrderRequest) (w : World)
    → IsAgreed w
    → IsAgreed (cancel_sent env req w).0
unfolding cancel_sent
cancel_sent-IsAgreed env req w a =
    elim (Option-cases (find_order req.client_order_id w.store.orders)) [
      | inl e ↦ rw (e, cancel_sent) a
      | inr (o, e) ↦ elim (Bool-cases (is_cancel_noop o.state)) [
        | inl t ↦ rw (e, cancel_sent, t) a
        | inr f ↦ elim (Bool-cases (is_unknown o.state)) [
          | inl u ↦ rw (e, cancel_sent, f, u) a
          | inr k ↦
              rw (e, cancel_sent, f, k)
                (cancel_in-IsAgreed env req (env.cancel_order req o.broker_order_no).1
                  (pushed env (env.cancel_order req o.broker_order_no).0 w)
                  (pushed-IsAgreed env (env.cancel_order req o.broker_order_no).0 w a))
        ]
      ]
    ]

forget-IsAgreed :
    (key cid : ℕ) (r : Run Bool) → IsAgreed r.0 → IsAgreed (and_then r (forget key cid)).0
forget-IsAgreed key cid (w, raised) a = a
forget-IsAgreed key cid (w, returned true) a = record {
  is_linked = pop-Linked w.metas w.store.orders cid a.is_linked;
  is_in_step = a.is_in_step;
}
forget-IsAgreed key cid (w, returned false) a = a

-- A cancellation keeps memory and database in agreement.
pub cancel_pending-IsAgreed :
    (env : Outside) (lot : Lot) (side : Side) (w : World)
    → IsAgreed w
    → IsAgreed (cancel_pending env lot side w).0
unfolding cancel_pending
cancel_pending-IsAgreed env lot side w a =
    let key = lock_key lot.lot_id side in
    elim (Option-cases (get_at key w.pending)) [
      | inl e ↦ rw (cancel_pending, e) a
      | inr (cid, e) ↦
          rw (cancel_pending, e)
            (forget-IsAgreed key cid (cancel_sent env (cancel_request lot side cid w) w)
              (cancel_sent-IsAgreed env (cancel_request lot side cid w) w a))
    ]

after_cancel-IsAgreed :
    (env : Outside) (lot : Lot) (side : Side) (qty : ℕ) (next : Next) (r : Run Bool)
    → KeepsNext next
    → IsAgreed r.0
    → IsAgreed (and_then r (after_cancel env lot side qty next)).0
after_cancel-IsAgreed env lot side qty next (w, raised) k a = a
after_cancel-IsAgreed env lot side qty next (w, returned false) k a = a
after_cancel-IsAgreed env lot buy qty next (w, returned true) k a = k qty w a
after_cancel-IsAgreed env lot sell qty next (w, returned true) k a =
    refresh_then-IsAgreed env lot qty next
      (record w { refresh_before_sell = add_to lot.lot_id w.refresh_before_sell }) k
      (record { is_linked = a.is_linked; is_in_step = a.is_in_step })

after_release-IsAgreed :
    (env : Outside) (replace : Bool) (lot : Lot) (side : Side) (qty : ℕ) (next : Next)
    (out : World × Bool)
    → KeepsNext next
    → IsAgreed out.0
    → IsAgreed (after_release env replace lot side qty next out).0
after_release-IsAgreed env replace lot side qty next (w, true) k a = k qty w a
after_release-IsAgreed env false lot side qty next (w, false) k a = a
after_release-IsAgreed env true lot side qty next (w, false) k a =
    after_cancel-IsAgreed env lot side qty next (cancel_pending env lot side w) k
      (cancel_pending-IsAgreed env lot side w a)

past_lock-IsAgreed :
    (env : Outside) (replace : Bool) (lot : Lot) (side : Side) (qty : ℕ) (next : Next) (w : World)
    → KeepsNext next
    → IsAgreed w
    → IsAgreed (past_lock env replace lot side qty next w).0
unfolding past_lock
past_lock-IsAgreed env replace lot side qty next w k a =
    after_release-IsAgreed env replace lot side qty next
      (release_if_terminal (lock_key lot.lot_id side) w) k
      (release-IsAgreed (lock_key lot.lot_id side) w a)

past_barrier-IsAgreed :
    (env : Outside) (lot : Lot) (side : Side) (qty : ℕ) (next : Next) (w : World)
    → KeepsNext next
    → IsAgreed w
    → IsAgreed (past_barrier env lot side qty next w).0
unfolding past_barrier
past_barrier-IsAgreed env lot buy qty next w k a = k qty w a
past_barrier-IsAgreed env lot sell qty next w k a =
    elim (Bool-cases (contains lot.lot_id w.refresh_before_sell || w.startup_refresh_pending)) [
      | inl t ↦ rw (past_barrier, t) (refresh_then-IsAgreed env lot qty next w k a)
      | inr f ↦ rw (past_barrier, f) (k qty w a)
    ]

-- For ids that are new, `_submit` keeps memory and database in agreement on every path: whether it
-- sends an order, replaces one or waits, with the fills that come in meanwhile, and however the calls
-- of the broker end.
pub submit-IsAgreed :
    (env : Outside) (replace : Bool) (lot : Lot) (side : Side) (qty price : ℕ) (is_add : Bool)
    (w : World)
    → IsFresh env
    → IsAgreed w
    → IsAgreed (submit env replace lot side qty price is_add w).0
unfolding submit
submit-IsAgreed env replace lot side qty price is_add w fresh a =
    let send : Next = λ q w'. place env lot side price q is_add w' in
    let lock_step : Next = λ q w'. past_lock env replace lot side q send w' in
    go_on-IsAgreed (λ q w'. past_barrier env lot side q lock_step w') qty w
      (λ q w' a'.
        past_barrier-IsAgreed env lot side q lock_step w'
          (λ q' w'' a''.
            past_lock-IsAgreed env replace lot side q' send w''
              (λ q'' v b. place-IsAgreed env lot side price q'' is_add v fresh b) a'')
          a')
      a
