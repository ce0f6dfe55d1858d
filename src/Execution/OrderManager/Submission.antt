-- ===== src/Execution/OrderManager/Submission.antt =====
-- Submission and cancellation: at most one order is sent for an id, and what the table says after.
use mathlib.Core.Path.{subst}
use short_trading_bot.Base.{
  ℕ, ◌≡◌, refl, sym, ap, ◌∙◌, ◌≢◌, ◌⊎◌, inl, inr, Bool, true, false, ◌||◌, Option, none, some, List,
  [], ◌∷◌, arith, ◌==◌, if◌then◌else◌, find_by-append_new, find_by-update_by_self,
  find_by-update_by_ne, Option-cases, Bool-cases, ℕ_discrete,
}
use short_trading_bot.Domain.Enums.{
  OrderState, pending_new, unknown, new, partially_filled, filled, cancelled, rejected,
}
use short_trading_bot.Execution.Types.{Fill, OrderRequest, OrderAck}
use short_trading_bot.Execution.Store.{Store, Order, order_key, find_order}
use short_trading_bot.Execution.OrderManager.{
  Response, Reply, acked, refused, failed, returned, handle_fill, handle_fills, submit, persist,
  conclude, record_outcome, accept_order, existing_ack, pending_order, state_after_fill, cancel,
  is_cancel_noop, is_unknown, is_filled, conclude_cancel,
}
use short_trading_bot.Execution.OrderManager.Fills.{handle_fill_self, handle_fill_ne, next_state}

-- the id is in the table
abbrev pub HasOrder : ℕ → Store → Type 0
HasOrder cid st = find_order cid st.orders ≢ none

module _ (autoflush : Bool) (quot : ℕ → ℕ → ℕ) (now : ℕ) where
  handle_fill-HasOrder :
      (cid : ℕ) (fill : Fill) (st : Store)
      → HasOrder cid st
      → HasOrder cid (handle_fill autoflush quot now fill st)
  handle_fill-HasOrder cid fill st h = elim (Option-cases (find_order cid st.orders)) [
    | inl e ↦ absurd (h e)
    | inr (o, e) ↦ elim (ℕ_discrete cid fill.client_order_id) [
      | yes same ↦ ground (arith, handle_fill_self autoflush quot now fill st {o = o})
      | no ne ↦ ground (arith, handle_fill_ne autoflush quot now fill cid st ne)
    ]
  ]

  pub handle_fills-HasOrder :
      (cid : ℕ) (fills : List Fill) (st : Store)
      → HasOrder cid st
      → HasOrder cid (handle_fills autoflush quot now fills st)
  unfolding handle_fills
  handle_fills-HasOrder cid [] st h = h
  handle_fills-HasOrder cid (f ∷ fs) st h =
      handle_fills-HasOrder cid fs (handle_fill autoflush quot now f st)
        (handle_fill-HasOrder cid f st h)

pub persist-find_order :
    (fresh now : ℕ) (req : OrderRequest) (st : Store)
    → find_order req.client_order_id st.orders ≡ none
    → find_order req.client_order_id (persist fresh now req st).orders
      ≡ some (pending_order fresh now req)
unfolding persist
persist-find_order fresh now req st h =
    find_by-append_new order_key req.client_order_id st.orders (pending_order fresh now req) h refl

-- the state of an order when its submission has ended, from the state that the fills have left
unfoldable pub concluded : Reply → OrderState → OrderState
concluded (acked ack) s =
    if ack.accepted then (elim s [ pending_new ↦ new | other ↦ other ]) else rejected
concluded (refused text) s = rejected
concluded failed s = unknown

pub conclude-find_order :
    (req : OrderRequest) (reply : Reply) (st : Store) {o : Order}
    → find_order req.client_order_id st.orders ≡ some o
    → (o' : Order) × (find_order req.client_order_id (conclude req reply st).0.orders ≡ some o')
      × (o'.state ≡ concluded reply o.state)
      × (o'.order_id ≡ o.order_id)
      × (o'.qty ≡ o.qty)
      × (o'.lot_id ≡ o.lot_id)
      × (o'.side ≡ o.side)
unfolding conclude concluded record_outcome accept_order
conclude-find_order req (acked ack) st {o} h = elim (Bool-cases ack.accepted) [
  | inl t ↦ (
    accept_order ack o,
    rw (h, t, conclude, record_outcome)
        (find_by-update_by_self order_key req.client_order_id (accept_order ack) st.orders refl h),
    ground arith,
    refl,
    refl,
    refl,
    refl,
  )
  | inr f ↦ (
    record o { state = rejected },
    rw (h, f, conclude, record_outcome)
        (find_by-update_by_self order_key req.client_order_id _ st.orders refl h),
    ground arith,
    refl,
    refl,
    refl,
    refl,
  )
]
conclude-find_order req (refused text) st {o} h = (
  record o { state = rejected },
  rw (h, conclude, record_outcome)
      (find_by-update_by_self order_key req.client_order_id _ st.orders refl h),
  refl,
  refl,
  refl,
  refl,
  refl,
)
conclude-find_order req failed st {o} h = (
  record o { state = unknown },
  rw (h, conclude) (find_by-update_by_self order_key req.client_order_id _ st.orders refl h),
  refl,
  refl,
  refl,
  refl,
  refl,
)

pub conclude-find_order_ne :
    (req : OrderRequest) (reply : Reply) (cid : ℕ) (st : Store)
    → cid ≢ req.client_order_id
    → find_order cid (conclude req reply st).0.orders ≡ find_order cid st.orders
unfolding conclude record_outcome accept_order
conclude-find_order_ne req (acked ack) cid st ne =
    elim (Option-cases (find_order req.client_order_id st.orders)) [
      | inl e ↦ rw (e, conclude, record_outcome)
      | inr (o, e) ↦ elim (Bool-cases ack.accepted) [
        | inl t ↦
            rw (e, t, conclude, record_outcome)
              (find_by-update_by_ne order_key cid req.client_order_id (accept_order ack) st.orders
                (λ x. refl) ne)
        | inr f ↦
            rw (e, f, conclude, record_outcome)
              (find_by-update_by_ne order_key cid req.client_order_id
                (λ x. record x { state = rejected }) st.orders (λ x. refl) ne)
      ]
    ]
conclude-find_order_ne req (refused text) cid st ne =
    elim (Option-cases (find_order req.client_order_id st.orders)) [
      | inl e ↦ rw (e, conclude, record_outcome)
      | inr (o, e) ↦
          rw (e, conclude, record_outcome)
            (find_by-update_by_ne order_key cid req.client_order_id
              (λ x. record x { state = rejected }) st.orders (λ x. refl) ne)
    ]
conclude-find_order_ne req failed cid st ne =
    elim (Option-cases (find_order req.client_order_id st.orders)) [
      | inl e ↦ rw (e, conclude)
      | inr (o, e) ↦
          rw (e, conclude)
            (find_by-update_by_ne order_key cid req.client_order_id
              (λ x. record x { state = unknown }) st.orders (λ x. refl) ne)
    ]

-- shares of the order have been executed
abbrev pub IsRunning : Order → Type 0
IsRunning o = (o.state ≡ filled) ⊎ (o.state ≡ partially_filled)

-- new, or with executed shares
abbrev IsYoung : Order → Type 0
IsYoung o = (o.state ≡ pending_new) ⊎ IsRunning o

-- some fill of the list is of the order
abbrev pub is_own : ℕ → List Fill → Bool
is_own cid [] = false
is_own cid (f ∷ fs) = f.client_order_id == cid || is_own cid fs

module _ (autoflush : Bool) (quot : ℕ → ℕ → ℕ) (now : ℕ) where
  own_fill :
      (cid : ℕ) (f : Fill) (st : Store) {o : Order}
      → f.client_order_id ≡ cid
      → find_order cid st.orders ≡ some o
      → IsYoung o
      → (o' : Order) × (find_order cid (handle_fill autoflush quot now f st).orders ≡ some o')
        × IsRunning o'
  unfolding state_after_fill
  own_fill cid f st {o} e h y =
      let h' : find_order f.client_order_id st.orders ≡ some o =
        subst (λ c. find_order c st.orders ≡ some o) (sym e) h in
      (
        record o { state = next_state autoflush o f st.fills },
        subst
            (λ c.
              find_order c (handle_fill autoflush quot now f st).orders
              ≡ some (record o { state = next_state autoflush o f st.fills }))
            e (handle_fill_self autoflush quot now f st h'),
        ground arith,
      )

  IsRunning-fills :
      (cid : ℕ) (fs : List Fill) (st : Store) {o : Order}
      → find_order cid st.orders ≡ some o
      → IsYoung o
      → (o' : Order) × (find_order cid (handle_fills autoflush quot now fs st).orders ≡ some o')
        × IsYoung o'
        × (IsRunning o → IsRunning o')
        × (is_own cid fs ≡ true → IsRunning o')
  unfolding handle_fills
  IsRunning-fills cid [] st {o} h y = (o, h, y, λ r. r, λ e. cc)
  IsRunning-fills cid (f ∷ fs) st {o} h y = elim (ℕ_discrete f.client_order_id cid) [
    | yes e ↦
        let (o', h', r') = own_fill cid f st e h y in
        let (o'', h'', y'', k, m) =
          IsRunning-fills cid fs (handle_fill autoflush quot now f st) h' (inr r') in
        (o'', h'', y'', λ _. k r', λ _. k r')
    | no ne ↦
        let (o'', h'', y'', k, m) =
          IsRunning-fills cid fs (handle_fill autoflush quot now f st)
            (handle_fill_ne autoflush quot now f cid st (λ e. ne (sym e)) ∙ h) y in
        (o'', h'', y'', k, λ own. m (ground arith))
  ]

  submit_known :
      (fresh : ℕ) (broker : OrderRequest → Response) (req : OrderRequest) (st : Store) {o : Order}
      → find_order req.client_order_id st.orders ≡ some o
      → submit autoflush quot now fresh broker req st ≡ (st, returned (existing_ack req o))
  unfolding submit
  submit_known fresh broker req st h = rw (h, submit)

  submit_new :
      (fresh : ℕ) (broker : OrderRequest → Response) (req : OrderRequest) (st : Store)
      → find_order req.client_order_id st.orders ≡ none
      → submit autoflush quot now fresh broker req st
        ≡ conclude req
            (broker req).1
            (handle_fills autoflush quot now (broker req).0 (persist fresh now req st))
  unfolding submit
  submit_new fresh broker req st h = rw (h, submit)

  submit_leaves_row :
      (fresh : ℕ) (broker : OrderRequest → Response) (req : OrderRequest) (st : Store)
      → (o : Order) × (find_order req.client_order_id
            (submit autoflush quot now fresh broker req st).0.orders
          ≡ some o)
  submit_leaves_row fresh broker req st =
      elim (Option-cases (find_order req.client_order_id st.orders)) [
        | inr (o, e) ↦ (o, rw (submit_known fresh broker req st e) e)
        | inl e ↦
            let (o, h, y, keep, own) =
              IsRunning-fills req.client_order_id (broker req).0 (persist fresh now req st)
                (persist-find_order fresh now req st e) (inl (unfold pending_order in refl)) in
            let (o', h', s', i', q', l', d') =
              conclude-find_order req (broker req).1
                (handle_fills autoflush quot now (broker req).0 (persist fresh now req st)) h in
            (o', rw (submit_new fresh broker req st e) h')
      ]

  -- However a submission ends, a second one with the same id sends nothing and changes nothing: it
  -- acknowledges the row that the first has left, whatever the broker would do.
  pub submit_again :
      (fresh fresh' : ℕ) (broker broker' : OrderRequest → Response) (req : OrderRequest)
      (st : Store)
      → let st' = (submit autoflush quot now fresh broker req st).0 in
        (o : Order) × (find_order req.client_order_id st'.orders ≡ some o)
        × (submit autoflush quot now fresh' broker' req st' ≡ (st', returned (existing_ack req o)))
  submit_again fresh fresh' broker broker' req st =
      let (o, h) = submit_leaves_row fresh broker req st in
      (o, h, submit_known fresh' broker' req _ h)

  -- The first submission of an id leaves the order in one state for each way that the broker's call
  -- ends: UNKNOWN if the outcome is not known, REJECTED if the order was refused, NEW if it was
  -- accepted; but if fills of it came in during an accepted call, it stays FILLED or
  -- PARTIALLY_FILLED.
  pub submit_outcome :
      (fresh : ℕ) (broker : OrderRequest → Response) (req : OrderRequest) (st : Store)
      → find_order req.client_order_id st.orders ≡ none
      → let (fills, reply) = broker req in
        (o : Order) × (find_order req.client_order_id
            (submit autoflush quot now fresh broker req st).0.orders
          ≡ some o)
        × (reply ≡ failed → o.state ≡ unknown)
        × ((text : ℕ) → reply ≡ refused text → o.state ≡ rejected)
        × ((ack : OrderAck) → reply ≡ acked ack → ack.accepted ≡ false → o.state ≡ rejected)
        × ((ack : OrderAck)
            → reply ≡ acked ack
            → ack.accepted ≡ true
            → (o.state ≡ new) ⊎ IsRunning o)
        × ((ack : OrderAck)
            → reply ≡ acked ack
            → ack.accepted ≡ true
            → is_own req.client_order_id fills ≡ true
            → IsRunning o)
  unfolding concluded
  submit_outcome fresh broker req st e =
      let (o, h, y, keep, own) =
        IsRunning-fills req.client_order_id (broker req).0 (persist fresh now req st)
          (persist-find_order fresh now req st e) (inl (unfold pending_order in refl)) in
      let (o', h', s', i', q', l', d') =
        conclude-find_order req (broker req).1
          (handle_fills autoflush quot now (broker req).0 (persist fresh now req st)) h in
      (
        o',
        rw (submit_new fresh broker req st e) h',
        λ r. s' ∙ rw r,
        λ text r. s' ∙ rw r,
        λ ack r f. ground arith,
        λ ack r t. ground arith,
        λ ack r t m. ground (arith, own m),
      )

module _ (autoflush : Bool) (quot : ℕ → ℕ → ℕ) (now : ℕ) where
  -- Nothing is sent and nothing changes, whatever the broker would do, if the id is not in the table
  -- or its order is over, which is reported as done, or if the order's outcome is unknown, which is
  -- reported as not done.
  pub cancel_idle :
      (broker : OrderRequest → Option ℕ → Response) (req : OrderRequest) (st : Store)
      → (find_order req.client_order_id st.orders ≡ none
          → cancel autoflush quot now broker req st ≡ (st, returned true))
        × ((o : Order)
            → find_order req.client_order_id st.orders ≡ some o
            → is_cancel_noop o.state ≡ true
            → cancel autoflush quot now broker req st ≡ (st, returned true))
        × ((o : Order)
            → find_order req.client_order_id st.orders ≡ some o
            → o.state ≡ unknown
            → cancel autoflush quot now broker req st ≡ (st, returned false))
  unfolding cancel
  cancel_idle broker req st = (
    λ e. rw (e, cancel),
    λ o e t. rw (e, cancel, t),
    λ o e u. rw (e, cancel, u) (unfold is_cancel_noop in refl),
  )

  cancel_sent :
      (broker : OrderRequest → Option ℕ → Response) (req : OrderRequest) (st : Store) {o : Order}
      {ack : OrderAck}
      → find_order req.client_order_id st.orders ≡ some o
      → is_cancel_noop o.state ≡ false
      → is_unknown o.state ≡ false
      → (broker req o.broker_order_no).1 ≡ acked ack
      → cancel autoflush quot now broker req st ≡ (
        conclude_cancel req ack
            (handle_fills autoflush quot now (broker req o.broker_order_no).0 st),
        returned ack.accepted,
      )
  unfolding cancel
  cancel_sent broker req st h n u r = rw (h, cancel, n, u, r)

  conclude_cancel_state :
      (req : OrderRequest) (ack : OrderAck) (st : Store) (o : Order)
      → find_order req.client_order_id st.orders ≡ some o
      → ack.accepted ≡ true
      → (o' : Order) × (find_order req.client_order_id (conclude_cancel req ack st).orders
          ≡ some o')
        × ((o'.state ≡ cancelled) ⊎ (o'.state ≡ filled))
  unfolding conclude_cancel
  conclude_cancel_state req ack st o h a = elim (Bool-cases (is_filled o.state)) [
    | inl f ↦ (o, rw (a, h, conclude_cancel, f) h, ground arith)
    | inr f ↦ (
      record o { state = cancelled },
      rw (a, h, conclude_cancel, f)
          (find_by-update_by_self order_key req.client_order_id _ st.orders refl h),
      inl refl,
    )
  ]

  -- When the broker accepts the cancellation of a working order, the call reports it done, and the
  -- order is CANCELLED, or FILLED if fills that came in meanwhile have completed it.
  pub cancel_done :
      (broker : OrderRequest → Option ℕ → Response) (req : OrderRequest) (st : Store) {o : Order}
      {ack : OrderAck}
      → find_order req.client_order_id st.orders ≡ some o
      → is_cancel_noop o.state ≡ false
      → o.state ≢ unknown
      → (broker req o.broker_order_no).1 ≡ acked ack
      → ack.accepted ≡ true
      → let (st', ended) = cancel autoflush quot now broker req st in
        (ended ≡ returned true)
        × ((o' : Order) × (find_order req.client_order_id st'.orders ≡ some o')
            × ((o'.state ≡ cancelled) ⊎ (o'.state ≡ filled)))
  cancel_done broker req st {o} {ack} h n u r a =
      let st1 = handle_fills autoflush quot now (broker req o.broker_order_no).0 st in
      let known : HasOrder req.client_order_id st1 =
        handle_fills-HasOrder autoflush quot now req.client_order_id
          (broker req o.broker_order_no).0 st (λ e. cc) in
      rw (cancel_sent broker req st h n (ground arith) r)
        (elim (Option-cases (find_order req.client_order_id st1.orders)) [
          | inl e ↦ absurd (known e)
          | inr (o1, e) ↦ (ap returned a, conclude_cancel_state req ack st1 o1 e a)
        ])
