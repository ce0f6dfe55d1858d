-- ===== src/Execution/FillPoller/Delta.antt =====
-- The accounting by differences: after a poll the fill rows hold exactly what the broker reports, and
-- a repeated poll, also one after a restart, delivers nothing.
use mathlib.Core.Path.{subst}
use short_trading_bot.Base.{
  ℕ, ◌+◌, ◌-◌, ◌≤◌, max, ◌≡◌, ◌∙◌, ap, ◌⊎◌, inl, inr, Bool, true, false, Option, none, some, List,
  arith, leb, ◌==◌, if◌then◌else◌, contains, Option-cases, Bool-cases, ℕ_discrete,
}
use short_trading_bot.Execution.Types.{Fill, Execution}
use short_trading_bot.Execution.Store.{Store, Order, FillRow, find_order, filled_of}
use short_trading_bot.Execution.OrderManager.{handle_fill}
use short_trading_bot.Execution.OrderManager.Fills.{handle_fill-filled_of, handle_fill_missing}
use short_trading_bot.Execution.FillPoller.{
  Polled, applied_of, resolve_order, delta_fill, deliver, poll_one, poll_all,
}
use short_trading_bot.Execution.FillPoller.Resolution.{
  OptionTwin, OptionTwin-refl, IsDistinct, resolve_order-handle_fill, resolve_order-find,
  handle_fill-IsDistinct,
}

module _ (autoflush : Bool) (quot : ℕ → ℕ → ℕ) (now : ℕ) (day : Option ℕ) where
  -- the fills go to the order manager
  abbrev pub to_manager : Fill → Store → Store
  to_manager = handle_fill autoflush quot now

  abbrev pub one : Execution → Polled → Polled
  one = poll_one quot to_manager now day

  abbrev pub all : List Execution → Polled → Polled
  all = poll_all quot to_manager now day

  -- The order that an execution is of has at least as many shares as the execution reports.
  abbrev pub IsSettledAs : Option Order → Execution → Store → Type 0
  IsSettledAs none ex st = Unit
  IsSettledAs (some o) ex st = ex.qty ≤ filled_of o.order_id st.fills

  abbrev pub IsSettled : Store → Execution → Type 0
  IsSettled st ex = IsSettledAs (resolve_order now day ex.broker_order_no st) ex st

  manager_grows :
      (fill : Fill) (id : ℕ) (st : Store)
      → filled_of id st.fills ≤ filled_of id (to_manager fill st).fills
  manager_grows fill id st = elim (Option-cases (find_order fill.client_order_id st.orders)) [
    | inl e ↦ rw (handle_fill_missing autoflush quot now fill st e) (omega arith)
    | inr (o, e) ↦ omega (arith, handle_fill-filled_of autoflush quot now fill id st e)
  ]

  pub IsSettledAs-keeps :
      (x y : Option Order) (ex : Execution) (st st' : Store)
      → ((id : ℕ) → filled_of id st.fills ≤ filled_of id st'.fills)
      → OptionTwin x y
      → IsSettledAs x ex st
      → IsSettledAs y ex st'
  IsSettledAs-keeps none none ex st st' g t h = tt
  IsSettledAs-keeps (some x) (some y) ex st st' g t h =
      rw t.same_order_id (omega (arith, g x.order_id))
  IsSettledAs-keeps none (some y) ex st st' g t h = absurd t
  IsSettledAs-keeps (some x) none ex st st' g t h = absurd t

  manager-IsSettled :
      (fill : Fill) (ex : Execution) (st : Store)
      → IsSettled st ex
      → IsSettled (to_manager fill st) ex
  manager-IsSettled fill ex st h =
      IsSettledAs-keeps _ _ ex st (to_manager fill st) (λ id. manager_grows fill id st)
        (resolve_order-handle_fill autoflush quot now now ex.broker_order_no day fill st) h

  -- one round, by its cases
  pub one_seen : (ex : Execution) (s : Polled) → contains ex.exec_id s.seen ≡ true → one ex s ≡ s
  unfolding poll_one
  one_seen ex s e = rw (e, poll_one)

  pub one_unresolved :
      (ex : Execution) (s : Polled)
      → resolve_order now day ex.broker_order_no s.store ≡ none
      → one ex s ≡ s
  unfolding poll_one
  one_unresolved ex s e = ground arith

  pub one_resolved :
      (ex : Execution) (s : Polled) {o : Order}
      → contains ex.exec_id s.seen ≡ false
      → resolve_order now day ex.broker_order_no s.store ≡ some o
      → one ex s ≡ deliver quot to_manager now day ex (applied_of o s.store.fills) s
  unfolding poll_one
  one_resolved ex s f e = rw (f, e, poll_one)

  -- A round leaves the store, or hands one fill to the order manager.
  one_store :
      (ex : Execution) (s : Polled)
      → ((one ex s).store ≡ s.store)
        ⊎ ((fill : Fill) × ((one ex s).store ≡ to_manager fill s.store))
  unfolding deliver
  one_store ex s = elim (Bool-cases (contains ex.exec_id s.seen)) [
    | inl e ↦ inl (ap (λ (p : Polled). p.store) (one_seen ex s e))
    | inr f ↦ elim (Option-cases (resolve_order now day ex.broker_order_no s.store)) [
      | inl e ↦ inl (ap (λ (p : Polled). p.store) (one_unresolved ex s e))
      | inr (o, e) ↦ elim (Bool-cases (leb ex.qty (filled_of o.order_id s.store.fills))) [
        | inl b ↦ inl (rw (one_resolved ex s f e, b))
        | inr b ↦
            inr (delta_fill quot day ex (applied_of o s.store.fills), rw (one_resolved ex s f e, b))
      ]
    ]
  ]

  pub one-IsDistinct :
      (ex : Execution) (s : Polled) → IsDistinct s.store.orders → IsDistinct (one ex s).store.orders
  one-IsDistinct ex s d = elim (one_store ex s) [
    | inl e ↦ rw e d
    | inr (fill, e) ↦ rw e (handle_fill-IsDistinct autoflush quot now fill s.store d)
  ]

  pub one_grows :
      (ex : Execution) (s : Polled) (id : ℕ)
      → filled_of id s.store.fills ≤ filled_of id (one ex s).store.fills
  one_grows ex s id = elim (one_store ex s) [
    | inl e ↦ rw e (omega arith)
    | inr (fill, e) ↦ rw e (manager_grows fill id s.store)
  ]

  -- The order that a number means is the same after a round.
  pub one_twin :
      (ex : Execution) (s : Polled) (number : ℕ)
      → OptionTwin
          (resolve_order now day number s.store)
          (resolve_order now day number (one ex s).store)
  one_twin ex s number = elim (one_store ex s) [
    | inl e ↦ rw e (OptionTwin-refl _)
    | inr (fill, e) ↦
        rw e (resolve_order-handle_fill autoflush quot now now number day fill s.store)
  ]

  pub one_keeps_IsSettled :
      (ex ex' : Execution) (s : Polled) → IsSettled s.store ex' → IsSettled (one ex s).store ex'
  one_keeps_IsSettled ex ex' s h = elim (one_store ex s) [
    | inl e ↦ rw e h
    | inr (fill, e) ↦ rw e (manager-IsSettled fill ex' s.store h)
  ]

  -- the two ways to reach the larger of two totals
  total_kept :
      (id id' q : ℕ) (fills : List FillRow)
      → leb q (filled_of id fills) ≡ true
      → filled_of id' fills
        ≡ (if id == id' then max (filled_of id' fills) q else filled_of id' fills)
  total_kept id id' q fills b = elim (ℕ_discrete id id') [
    | yes e ↦
        subst
          (λ i.
            filled_of i fills ≡ (if id == i then max (filled_of i fills) q else filled_of i fills))
          e (ground arith)
    | no e ↦ ground arith
  ]

  total_raised :
      (id id' q : ℕ) (fills : List FillRow)
      → leb q (filled_of id fills) ≡ false
      → filled_of id' fills + (if id == id' then q - filled_of id fills else 0)
        ≡ (if id == id' then max (filled_of id' fills) q else filled_of id' fills)
  total_raised id id' q fills b = elim (ℕ_discrete id id') [
    | yes e ↦
        subst
          (λ i.
            filled_of i fills + (if id == i then q - filled_of id fills else 0)
            ≡ (if id == i then max (filled_of i fills) q else filled_of i fills))
          e (ground arith)
    | no e ↦ ground arith
  ]

  -- A round that matches an order brings its fill rows up to the execution's quantity, and changes
  -- no other order's.
  pub one_counts :
      (ex : Execution) (s : Polled) (id : ℕ) {o : Order}
      → IsDistinct s.store.orders
      → contains ex.exec_id s.seen ≡ false
      → resolve_order now day ex.broker_order_no s.store ≡ some o
      → filled_of id (one ex s).store.fills ≡ (
          if o.order_id == id
          then max (filled_of id s.store.fills) ex.qty
          else filled_of id s.store.fills)
  unfolding deliver delta_fill
  one_counts ex s id {o} d f e =
      let found : find_order o.client_order_id s.store.orders ≡ some o =
        resolve_order-find now ex.broker_order_no day s.store d e in
      elim (Bool-cases (leb ex.qty (filled_of o.order_id s.store.fills))) [
        | inl b ↦ rw (one_resolved ex s f e, b) (total_kept o.order_id id ex.qty s.store.fills b)
        | inr b ↦
            rw (one_resolved ex s f e, b)
              (handle_fill-filled_of autoflush quot now
                  (delta_fill quot day ex (applied_of o s.store.fills)) id s.store found
                ∙ total_raised o.order_id id ex.qty s.store.fills b)
      ]
