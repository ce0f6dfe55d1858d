-- ===== src/App/Service/Orders/Locks.antt =====
-- The locks against duplicate orders: an order that may still be filled keeps its lot and side locked.
use short_trading_bot.Base.{
  ℕ, ◌≡◌, refl, sym, ap, ◌∙◌, ◌≢◌, ◌⊎◌, inl, inr, Bool, true, false, ◌||◌, Option, none, some, List,
  [], arith, ◌==◌, contains, get_at, put, pop, get_at-put, get_at-pop, find_by-append_ne,
  Option-cases, Bool-cases, ℕ_discrete, ==_refl,
}
use short_trading_bot.Domain.Enums.{
  Side, buy, sell, OrderState, pending_new, unknown, new, partially_filled, rejected,
}
use short_trading_bot.Domain.Position.{Lot}
use short_trading_bot.Execution.Types.{OrderRequest, OrderAck}
use short_trading_bot.Execution.Store.{Store, Order, find_order, order_key}
use short_trading_bot.Execution.OrderManager.{
  Reply, acked, refused, failed, returned, raised, is_open_state, persist, pending_order, conclude,
  refused_ack, Ended, record_outcome,
}
use short_trading_bot.Execution.OrderManager.Submission.{
  persist-find_order, concluded, conclude-find_order, conclude-find_order_ne,
}
use short_trading_bot.App.Service.State.{World, lock_key, is_final}
use short_trading_bot.App.Service.Handler.{unlock, on_fills}
use short_trading_bot.App.Service.Orders.{
  Outside, submit, release_if_terminal, release_after, is_over, past_barrier, past_lock, place,
  send_order, with_store, and_then, order_request, lock_order, settle,
}

pub lock_key_lot : (a b : ℕ) (s t : Side) → lock_key a s ≡ lock_key b t → (a ≡ b) × (s ≡ t)
lock_key_lot a b buy buy h = ground arith
lock_key_lot a b buy sell h = ground arith
lock_key_lot a b sell buy h = ground arith
lock_key_lot a b sell sell h = ground arith

pub release_live :
    (key : ℕ) (w : World) {cid : ℕ} {o : Order}
    → get_at key w.pending ≡ some cid
    → find_order cid w.store.orders ≡ some o
    → is_final o.state ≡ false
    → release_if_terminal key w ≡ (w, false)
unfolding release_if_terminal
release_live key w h f n = rw (h, release_if_terminal, f, n)

-- Every order that may still be filled has the lock of its lot and side.
abbrev pub Guards : List (ℕ × ℕ) → List Order → Type 0
Guards pending orders =
    (cid : ℕ) (o : Order)
    → find_order cid orders ≡ some o
    → is_open_state o.state ≡ true
    → get_at (lock_key o.lot_id o.side) pending ≡ some cid

abbrev pub IsGuarded : World → Type 0
IsGuarded w = Guards w.pending w.store.orders

-- The order may still be filled.
abbrev pub IsWorking : OrderState → Type 0
IsWorking st = (st ≡ pending_new) ⊎ (st ≡ unknown) ⊎ (st ≡ new) ⊎ (st ≡ partially_filled)

IsWorking-is_open : (st : OrderState) → IsWorking st → is_open_state st ≡ true
unfolding is_open_state
IsWorking-is_open st h = ground arith

IsWorking-not_final : (st : OrderState) → IsWorking st → is_final st ≡ false
unfolding is_final
IsWorking-not_final st h = ground arith

unsent :
    (env : Outside) (lot : Lot) (side : Side) (qty price : ℕ) (is_add : Bool) (w : World) {cid : ℕ}
    {o : Order}
    → get_at (lock_key lot.lot_id side) w.pending ≡ some cid
    → find_order cid w.store.orders ≡ some o
    → is_final o.state ≡ false
    → (side ≡ sell
        → (contains lot.lot_id w.refresh_before_sell || w.startup_refresh_pending) ≡ false)
    → submit env false lot side qty price is_add w ≡ (w, returned false)
unfolding submit past_barrier past_lock
unsent env lot buy qty price is_add w h f n b = elim (Bool-cases (qty == 0)) [
  | inl z ↦ rw (z, submit)
  | inr z ↦ rw (z, submit, past_barrier, past_lock, release_live _ w h f n)
]
unsent env lot sell qty price is_add w h f n b = elim (Bool-cases (qty == 0)) [
  | inl z ↦ rw (z, submit)
  | inr z ↦ rw (z, submit, past_barrier, b refl, past_lock, release_live _ w h f n)
]

-- Where every open order has the lock of its lot and side: while an order of the lot and side is
-- PENDING_NEW, UNKNOWN, NEW or PARTIALLY_FILLED, a second one that is not to replace it, and before
-- which no fills have to be taken in, is not sent, and nothing changes.
pub submit_locked :
    (env : Outside) (lot : Lot) (side : Side) (qty price : ℕ) (is_add : Bool) (w : World) (cid : ℕ)
    (o : Order)
    → IsGuarded w
    → find_order cid w.store.orders ≡ some o
    → o.lot_id ≡ lot.lot_id
    → o.side ≡ side
    → IsWorking o.state
    → (side ≡ sell
        → (contains lot.lot_id w.refresh_before_sell || w.startup_refresh_pending) ≡ false)
    → submit env false lot side qty price is_add w ≡ (w, returned false)
submit_locked env lot side qty price is_add w cid o g f l d k b =
    let locked = g cid o f (IsWorking-is_open o.state k) in
    let held : get_at (lock_key lot.lot_id side) w.pending ≡ some cid =
      ap (λ x. get_at (lock_key x side) w.pending) (sym l)
      ∙ ap (λ x. get_at (lock_key o.lot_id x) w.pending) (sym d)
      ∙ locked in
    unsent env lot side qty price is_add w held f (IsWorking-not_final o.state k) b

open_not_final : (s : OrderState) → is_open_state s ≡ true → is_final s ≡ false
unfolding is_open_state is_final
open_not_final s h = ground arith

rejected_not_open : (s : OrderState) → s ≡ rejected → is_open_state s ≡ false
unfolding is_open_state
rejected_not_open s h = ground arith

-- the state without the lock of an order
abbrev pub freed : ℕ → ℕ → World → World
freed key cid w = record w { pending = pop key w.pending; metas = pop cid w.metas }

release_after_lem :
    (key cid : ℕ) (w : World)
    → get_at key w.pending ≡ some cid
    → release_after key cid w ≡ freed key cid w
unfolding release_after
release_after_lem key cid w e = rw (release_after, unlock, e, ==_refl cid)

-- Giving up a lock has three outcomes.
pub release_cases :
    (key : ℕ) (w : World)
    → ((get_at key w.pending ≡ none) × (release_if_terminal key w ≡ (w, true)))
      ⊎ ((cid : ℕ) × (get_at key w.pending ≡ some cid)
          × (((is_over (find_order cid w.store.orders) ≡ true)
                × (release_if_terminal key w ≡ (freed key cid w, true)))
              ⊎ ((is_over (find_order cid w.store.orders) ≡ false)
                  × (release_if_terminal key w ≡ (w, false)))))
unfolding release_if_terminal release_after
release_cases key w = elim (Option-cases (get_at key w.pending)) [
  | inl e ↦ inl (e, rw (e, release_if_terminal))
  | inr (cid, e) ↦ inr (
    cid,
    e,
    elim (Bool-cases (is_over (find_order cid w.store.orders))) [
      | inl t ↦
          inl (
            t,
            rw (e, release_if_terminal, t) (ap (λ x. (x, true)) (release_after_lem key cid w e)),
          )
      | inr n ↦ inr (n, rw (e, release_if_terminal, n))
    ],
  )
]

freed-IsGuarded :
    (key held : ℕ) (w : World)
    → get_at key w.pending ≡ some held
    → is_over (find_order held w.store.orders) ≡ true
    → IsGuarded w
    → IsGuarded (freed key held w)
freed-IsGuarded key held w e t g cid o f s = elim (ℕ_discrete key (lock_key o.lot_id o.side)) [
  | yes same ↦ ground (arith, g cid o f s, open_not_final o.state s, get_at-pop _ key w.pending)
  | no ne ↦ ground (arith, g cid o f s, get_at-pop (lock_key o.lot_id o.side) key w.pending)
]

-- Giving up the lock of an order that is over, or that is not in the table, keeps the others.
pub release-IsGuarded :
    (key : ℕ) (w : World) → IsGuarded w → IsGuarded (release_if_terminal key w).0
release-IsGuarded key w g = elim (release_cases key w) [
  | inl (e, r) ↦ rw r g
  | inr (held, e, inl (t, r)) ↦ rw r (freed-IsGuarded key held w e t g)
  | inr (held, e, inr (n, r)) ↦ rw r g
]

-- A broker that hands over no fills while a request is answered.
abbrev pub IsQuiet : Outside → Type 0
IsQuiet env =
    ((req : OrderRequest) → (env.submit_order req).0 ≡ [])
    × ((req : OrderRequest) (number : Option ℕ) → (env.cancel_order req number).0 ≡ [])

-- The id of a new order is not in the table.
abbrev pub IsFresh : Outside → Type 0
IsFresh env = (w : World) → find_order (env.fresh_cid w) w.store.orders ≡ none

send_quiet :
    (env : Outside) (req : OrderRequest) (w : World)
    → IsQuiet env
    → find_order req.client_order_id w.store.orders ≡ none
    → send_order env req w
      ≡ with_store w
          (conclude req (env.submit_order req).1 (persist (env.fresh_id w) env.now req w.store))
unfolding send_order on_fills
send_quiet env req w q e = rw (send_order, e, q.0 req, on_fills)

-- the rows after a submission without fills
abbrev sent_store : Outside → ℕ → OrderRequest → World → Store
sent_store env id req w = (conclude req (env.submit_order req).1 (persist id env.now req w.store)).0

persist_ne :
    (fresh now cid : ℕ) (req : OrderRequest) (st : Store)
    → cid ≢ req.client_order_id
    → find_order cid (persist fresh now req st).orders ≡ find_order cid st.orders
unfolding persist pending_order
persist_ne fresh now cid req st ne =
    find_by-append_ne order_key cid st.orders (pending_order fresh now req) λ e. ne (sym e)

-- what the table says of an order that is in it after a submission
sent_row :
    (env : Outside) (id : ℕ) (req : OrderRequest) (w : World) (cid : ℕ) (o : Order)
    → find_order req.client_order_id w.store.orders ≡ none
    → find_order cid (sent_store env id req w).orders ≡ some o
    → ((cid ≡ req.client_order_id)
        × (o.lot_id ≡ req.lot_id)
        × (o.side ≡ req.side)
        × (o.state ≡ concluded (env.submit_order req).1 pending_new))
      ⊎ ((cid ≢ req.client_order_id) × (find_order cid w.store.orders ≡ some o))
sent_row env id req w cid o e f = elim (ℕ_discrete cid req.client_order_id) [
  | yes same ↦
      let (o', h', s', i', q', l', d') =
        conclude-find_order req (env.submit_order req).1 (persist id env.now req w.store)
          (persist-find_order id env.now req w.store e) in
      let eo : o ≡ o' = cc in
      inl (
        same,
        ap (λ x. x.lot_id) eo ∙ l' ∙ unfold pending_order in refl,
        ap (λ x. x.side) eo ∙ d' ∙ unfold pending_order in refl,
        ap (λ x. x.state) eo
            ∙ s'
            ∙ ap (concluded (env.submit_order req).1) (unfold pending_order in refl),
      )
  | no ne ↦ inr (
    ne,
    sym (persist_ne id env.now cid req w.store ne)
        ∙ sym (
            conclude-find_order_ne req (env.submit_order req).1 cid (persist id env.now req w.store)
              ne)
        ∙ f,
  )
]

-- with the lock of the new order
locked-Guards :
    (env : Outside) (id : ℕ) (req : OrderRequest) (w : World)
    → find_order req.client_order_id w.store.orders ≡ none
    → get_at (lock_key req.lot_id req.side) w.pending ≡ none
    → IsGuarded w
    → Guards
        (put (lock_key req.lot_id req.side) req.client_order_id w.pending)
        (sent_store env id req w).orders
locked-Guards env id req w e free g cid o f s = elim (sent_row env id req w cid o e f) [
  | inl (same, l, d, t) ↦ rw (l, d, same, get_at-put, ==_refl (lock_key req.lot_id req.side))
  | inr (ne, h) ↦
      let mine = g cid o h s in
      get_at-put (lock_key o.lot_id o.side) (lock_key req.lot_id req.side) req.client_order_id
        w.pending
      ∙ ground arith
]

-- without it, when the order has been refused
refused-Guards :
    (env : Outside) (id : ℕ) (req : OrderRequest) (w : World)
    → find_order req.client_order_id w.store.orders ≡ none
    → get_at (lock_key req.lot_id req.side) w.pending ≡ none
    → concluded (env.submit_order req).1 pending_new ≡ rejected
    → IsGuarded w
    → Guards
        (pop
          (lock_key req.lot_id req.side)
          (put (lock_key req.lot_id req.side) req.client_order_id w.pending))
        (sent_store env id req w).orders
refused-Guards env id req w e free r g cid o f s = elim (sent_row env id req w cid o e f) [
  | inl (same, l, d, t) ↦ ground (arith, rejected_not_open o.state (t ∙ r))
  | inr (ne, h) ↦
      let mine = g cid o h s in
      get_at-pop (lock_key o.lot_id o.side) (lock_key req.lot_id req.side) _
      ∙ ground (
        arith,
        get_at-put (lock_key o.lot_id o.side) (lock_key req.lot_id req.side) req.client_order_id
            w.pending,
      )
]

-- how a submission without fills ends
abbrev ended_of : OrderRequest → Reply → Ended OrderAck
ended_of req (acked ack) = returned ack
ended_of req (refused text) = returned (refused_ack req text)
ended_of req failed = raised

conclude_ended :
    (req : OrderRequest) (reply : Reply) (st : Store) {o : Order}
    → find_order req.client_order_id st.orders ≡ some o
    → (conclude req reply st).1 ≡ ended_of req reply
unfolding conclude record_outcome
conclude_ended req (acked ack) st h = rw (h, conclude, record_outcome)
conclude_ended req (refused text) st h = rw (h, conclude, record_outcome)
conclude_ended req failed st h = rw (h, conclude)

settled-IsGuarded :
    (env : Outside) (id : ℕ) (req : OrderRequest) (is_add : Bool) (w : World) (reply : Reply)
    → (env.submit_order req).1 ≡ reply
    → find_order req.client_order_id w.store.orders ≡ none
    → get_at (lock_key req.lot_id req.side) w.pending ≡ none
    → IsGuarded w
    → IsGuarded
        (and_then
          (record (lock_order req is_add w) { store = sent_store env id req w }, ended_of req reply)
          (settle req)).0
unfolding lock_order settle concluded
settled-IsGuarded env id req is_add w (acked ack) r e free g = elim (Bool-cases ack.accepted) [
  | inl t ↦ rw (settle, t) (locked-Guards env id req w e free g)
  | inr n ↦ rw (settle, n) (refused-Guards env id req w e free (rw (r, concluded, n)) g)
]
settled-IsGuarded env id req is_add w (refused text) r e free g =
    refused-Guards env id req w e free (rw (r, concluded)) g
settled-IsGuarded env id req is_add w failed r e free g = locked-Guards env id req w e free g

placed-IsGuarded :
    (env : Outside) (lot : Lot) (side : Side) (price qty : ℕ) (is_add : Bool) (w : World)
    → IsQuiet env
    → IsFresh env
    → get_at (lock_key lot.lot_id side) w.pending ≡ none
    → IsGuarded w
    → IsGuarded (place env lot side price qty is_add w).0
unfolding place lock_order order_request
placed-IsGuarded env lot side price qty is_add w q fresh free g =
    let req = order_request lot side qty price (env.fresh_cid w) in
    rw
      (
        place,
        send_quiet env req (lock_order req is_add w) q (fresh w),
        conclude_ended req (env.submit_order req).1
            (persist (env.fresh_id (lock_order req is_add w)) env.now req w.store)
            (persist-find_order (env.fresh_id (lock_order req is_add w)) env.now req w.store
              (fresh w)),
      )
      (settled-IsGuarded env (env.fresh_id (lock_order req is_add w)) req is_add w
        (env.submit_order req).1 refl (fresh w) free g)

-- For a broker that hands over no fills within a call and for ids that are new, `_submit` of a
-- purchase keeps the rule that every order that may still be filled has the lock of its lot and
-- side, however the broker answers.
pub submit-IsGuarded :
    (env : Outside) (lot : Lot) (qty price : ℕ) (is_add : Bool) (w : World)
    → IsQuiet env
    → IsFresh env
    → IsGuarded w
    → IsGuarded (submit env false lot buy qty price is_add w).0
unfolding submit past_barrier past_lock
submit-IsGuarded env lot qty price is_add w q fresh g = elim (Bool-cases (qty == 0)) [
  | inl z ↦ rw (z, submit) g
  | inr z ↦ elim (release_cases (lock_key lot.lot_id buy) w) [
    | inl (e, r) ↦
        rw (z, submit, past_barrier, past_lock, r)
          (placed-IsGuarded env lot buy price qty is_add w q fresh e g)
    | inr (held, e, inl (t, r)) ↦
        rw (z, submit, past_barrier, past_lock, r)
          (placed-IsGuarded env lot buy price qty is_add (freed (lock_key lot.lot_id buy) held w) q
            fresh ground
            (arith, get_at-pop (lock_key lot.lot_id buy) (lock_key lot.lot_id buy) w.pending)
            (freed-IsGuarded (lock_key lot.lot_id buy) held w e t g))
    | inr (held, e, inr (n, r)) ↦ rw (z, submit, past_barrier, past_lock, r) g
  ]
]
