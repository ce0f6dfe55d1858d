-- ===== src/App/Service/Orders/Agreement.antt =====
-- `_submit` keeps the memory of the service and the database in agreement.
use short_trading_bot.Base.{
  ℕ, ◌≡◌, refl, sym, ◌∙◌, Bool, true, false, none, some, List, arith, ◌==◌, find_by-append_ne,
  Bool-cases, inl, inr, ℕ_discrete, min,
}
use short_trading_bot.Domain.Enums.{Side}
use short_trading_bot.Domain.Position.{Lot}
use short_trading_bot.Execution.Types.{Fill, OrderRequest, OrderAck}
use short_trading_bot.Execution.Store.{Store, find_order, order_key}
use short_trading_bot.Execution.OrderManager.{
  Reply, acked, refused, failed, returned, raised, persist, pending_order, conclude, record_outcome,
}
use short_trading_bot.Execution.OrderManager.Submission.{
  persist-find_order, conclude-find_order, conclude-find_order_ne,
}
use short_trading_bot.App.Service.State.{World, PendingOrder}
use short_trading_bot.App.Service.Handler.Steps.{none_ne}
use short_trading_bot.App.Service.Handler.Links.{Linked, put-Linked, pop-Linked}
use short_trading_bot.App.Service.Handler.Agreement.{on_fills-IsInStep}
use short_trading_bot.App.Service.Polling.Agreement.{IsAgreed, refresh_fills-IsAgreed}
use short_trading_bot.App.Service.Orders.{
  Outside, Run, and_then, Next, release_if_terminal, refresh_then, refresh, go_on, after_refresh,
  conclude_in, place, qty_now, pushed, reply_after, send_order, lock_order, settle, order_request,
  new_meta,
}
use short_trading_bot.App.Service.Orders.Locks.{release_cases, freed, IsFresh}

-- a conclusion keeps the positions, and every order with its lot and side
conclude_positions :
    (req : OrderRequest) (reply : Reply) (st : Store)
    → (conclude req reply st).0.positions ≡ st.positions
unfolding conclude record_outcome
conclude_positions req (acked ack) st = ground arith
conclude_positions req (refused text) st = ground arith
conclude_positions req failed st = ground arith

conclude-Linked :
    (req : OrderRequest) (reply : Reply) (metas : List (ℕ × PendingOrder)) (st : Store)
    → Linked metas st.orders
    → Linked metas (conclude req reply st).0.orders
conclude-Linked req reply metas st h cid meta e =
    let (o, f, l, s) = h cid meta e in
    elim (ℕ_discrete cid req.client_order_id) [
      | yes same ↦
          let (o', f', _, _, _, l', s') =
            conclude-find_order req reply st {o = o} (rw (sym same) f) in
          (o', rw same f', l ∙ sym l', s ∙ sym s')
      | no ne ↦ (o, conclude-find_order_ne req reply cid st ne ∙ f, l, s)
    ]

conclude_in-IsAgreed :
    (env : Outside) (req : OrderRequest) (reply : Reply) (out : World × Bool)
    → IsAgreed out.0
    → IsAgreed (conclude_in env req reply out).0
conclude_in-IsAgreed env req reply (w, r) a = record {
  is_linked = conclude-Linked req (reply_after r reply) w.metas w.store a.is_linked;
  is_in_step = rw (conclude_positions req (reply_after r reply) w.store) a.is_in_step;
}

pub pushed-IsAgreed :
    (env : Outside) (fills : List Fill) (w : World) → IsAgreed w → IsAgreed (pushed env fills w).0
pushed-IsAgreed env fills w a =
    let (l, s) =
      on_fills-IsInStep env.autoflush env.quot env.rates env.now fills w a.is_linked a.is_in_step in
    record { is_linked = l; is_in_step = s }

-- the rows and the memory of a new order
persisted-IsAgreed :
    (id now : ℕ) (req : OrderRequest) (is_add : Bool) (w : World)
    → find_order req.client_order_id w.store.orders ≡ none
    → IsAgreed w
    → IsAgreed (record (lock_order req is_add w) { store = persist id now req w.store })
unfolding lock_order persist pending_order
persisted-IsAgreed id now req is_add w n a = record {
  is_linked =
      put-Linked w.metas (persist id now req w.store).orders req.client_order_id
        (new_meta req is_add)
        (pending_order id now req, persist-find_order id now req w.store n, refl, refl)
        λ cid meta e.
          let (o, f, l, s) = a.is_linked cid meta e in
          elim (ℕ_discrete cid req.client_order_id) [
            | yes same ↦ absurd (none_ne {lot = o} n (rw (sym same) f))
            | no ne ↦ (
              o,
              find_by-append_ne order_key cid w.store.orders (pending_order id now req)
                    (λ x. ne (sym x))
                  ∙ f,
              l,
              s,
            )
          ];
  is_in_step = a.is_in_step;
}

send_order-IsAgreed :
    (env : Outside) (req : OrderRequest) (is_add : Bool) (w : World)
    → find_order req.client_order_id w.store.orders ≡ none
    → IsAgreed w
    → IsAgreed (send_order env req (lock_order req is_add w)).0
unfolding send_order lock_order
send_order-IsAgreed env req is_add w n a =
    let w1 = lock_order req is_add w in
    let w2 : World = record w1 { store = persist (env.fresh_id w1) env.now req w.store } in
    rw (send_order, n)
      (conclude_in-IsAgreed env req (env.submit_order req).1
        (pushed env (env.submit_order req).0 w2)
        (pushed-IsAgreed env (env.submit_order req).0 w2
          (persisted-IsAgreed (env.fresh_id w1) env.now req is_add w n a)))

settle-IsAgreed :
    (req : OrderRequest) (r : Run OrderAck) → IsAgreed r.0 → IsAgreed (and_then r (settle req)).0
unfolding settle
settle-IsAgreed req (w, raised) a = a
settle-IsAgreed req (w, returned ack) a = elim (Bool-cases ack.accepted) [
  | inl t ↦ rw (settle, t) a
  | inr f ↦
      rw (settle, f)
        (record {
          is_linked = pop-Linked w.metas w.store.orders req.client_order_id a.is_linked;
          is_in_step = a.is_in_step;
        })
]

pub place-IsAgreed :
    (env : Outside) (lot : Lot) (side : Side) (price qty : ℕ) (is_add : Bool) (w : World)
    → IsFresh env
    → IsAgreed w
    → IsAgreed (place env lot side price qty is_add w).0
unfolding place order_request
place-IsAgreed env lot side price qty is_add w fresh a =
    let req = order_request lot side qty price (env.fresh_cid w) in
    settle-IsAgreed req (send_order env req (lock_order req is_add w))
      (send_order-IsAgreed env req is_add w (fresh w) a)

freed-IsAgreed : (key cid : ℕ) (w : World) → IsAgreed w → IsAgreed (freed key cid w)
freed-IsAgreed key cid w a = record {
  is_linked = pop-Linked w.metas w.store.orders cid a.is_linked;
  is_in_step = a.is_in_step;
}

pub release-IsAgreed : (key : ℕ) (w : World) → IsAgreed w → IsAgreed (release_if_terminal key w).0
release-IsAgreed key w a = elim (release_cases key w) [
  | inl (e, r) ↦ rw r a
  | inr (held, e, inl (t, r)) ↦ rw r (freed-IsAgreed key held w a)
  | inr (held, e, inr (n, r)) ↦ rw r a
]

refresh-IsAgreed :
    (env : Outside) (lot : Lot) (w : World) → IsAgreed w → IsAgreed (refresh env lot w).0
refresh-IsAgreed env lot w a =
    refresh_fills-IsAgreed env.autoflush env.quot env.rates env.now env.executions (some lot.lot_id)
      w a

-- the next statement keeps the agreement too
abbrev pub KeepsNext : Next → Type 0
KeepsNext next = (q : ℕ) (w : World) → IsAgreed w → IsAgreed (next q w).0

pub go_on-IsAgreed :
    (next : Next) (q : ℕ) (w : World) → KeepsNext next → IsAgreed w → IsAgreed (go_on next q w).0
go_on-IsAgreed next q w k a = elim (Bool-cases (q == 0)) [
  | inl z ↦ rw (go_on, z) a
  | inr n ↦ rw (go_on, n) (k q w a)
]

after_refresh-IsAgreed :
    (env : Outside) (lot : Lot) (qty : ℕ) (next : Next) (out : World × Bool)
    → KeepsNext next
    → IsAgreed out.0
    → IsAgreed (after_refresh env lot qty next out).0
after_refresh-IsAgreed env lot qty next (w, true) k a =
    go_on-IsAgreed next (min qty (qty_now lot w)) w k a
after_refresh-IsAgreed env lot qty next (w, false) k a = a

pub refresh_then-IsAgreed :
    (env : Outside) (lot : Lot) (qty : ℕ) (next : Next) (w : World)
    → KeepsNext next
    → IsAgreed w
    → IsAgreed (refresh_then env lot qty next w).0
unfolding refresh_then
refresh_then-IsAgreed env lot qty next w k a =
    after_refresh-IsAgreed env lot qty next (refresh env lot w) k (refresh-IsAgreed env lot w a)
