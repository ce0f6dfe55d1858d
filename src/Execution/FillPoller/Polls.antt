-- ===== src/Execution/FillPoller/Polls.antt =====
-- Whole polls: what the fill rows hold afterwards, and what a repeated poll does.
use mathlib.Core.Path.{subst}
use short_trading_bot.Base.{
  ℕ, ◌≤◌, ◌≡◌, refl, sym, ◌∙◌, inl, inr, Bool, false, Option, none, some, List, [], ◌∷◌, All, arith,
  leb, contains, Option-cases, Bool-cases,
}
use short_trading_bot.Execution.Types.{Execution}
use short_trading_bot.Execution.Store.{Store, Order, filled_of}
use short_trading_bot.Execution.FillPoller.{Polled, resolve_order, deliver, poll_all, poll_locked}
use short_trading_bot.Execution.FillPoller.Resolution.{IsDistinct, OptionTwin}
use short_trading_bot.Execution.FillPoller.Delta.{
  to_manager, one, all, IsSettled, IsSettledAs, one_seen, one_unresolved, one_resolved,
  one-IsDistinct, one_keeps_IsSettled, one_counts, one_twin, IsSettledAs-keeps,
}

-- No id of the executions is among those seen, and none occurs twice.
abbrev pub IsFresh : List ℕ → List Execution → Type 0
IsFresh seen [] = Unit
IsFresh seen (ex ∷ exs) = (contains ex.exec_id seen ≡ false) × IsFresh (ex.exec_id ∷ seen) exs

-- Fewer ids seen: the executions are still fresh.
IsFresh-weaken :
    (seen seen' : List ℕ) (exs : List Execution)
    → ((k : ℕ) → contains k seen ≡ false → contains k seen' ≡ false)
    → IsFresh seen exs
    → IsFresh seen' exs
IsFresh-weaken seen seen' [] w h = tt
IsFresh-weaken seen seen' (ex ∷ exs) w h = (
  w ex.exec_id h.0,
  IsFresh-weaken (ex.exec_id ∷ seen) (ex.exec_id ∷ seen') exs (λ k c. ground (arith, w k)) h.1,
)

module _ (autoflush : Bool) (quot : ℕ → ℕ → ℕ) (now : ℕ) (day : Option ℕ) where
  abbrev step : Execution → Polled → Polled
  step = one autoflush quot now day

  abbrev steps : List Execution → Polled → Polled
  steps = all autoflush quot now day

  abbrev Settled : Store → Execution → Type 0
  Settled = IsSettled autoflush quot now day

  -- one round after another
  steps_cons :
      (ex : Execution) (exs : List Execution) (s : Polled)
      → steps (ex ∷ exs) s ≡ steps exs (step ex s)
  unfolding poll_all
  steps_cons ex exs s = refl

  Settled-qty :
      (st : Store) (ex : Execution) (o : Order)
      → resolve_order now day ex.broker_order_no st ≡ some o
      → Settled st ex
      → ex.qty ≤ filled_of o.order_id st.fills
  Settled-qty st ex o e h = subst (λ x. IsSettledAs autoflush quot now day x ex st) e h

  step-IsFresh :
      (ex : Execution) (exs : List Execution) (s : Polled)
      → IsFresh s.seen (ex ∷ exs)
      → IsFresh (step ex s).seen exs
  unfolding deliver
  step-IsFresh ex exs s h = elim (Option-cases (resolve_order now day ex.broker_order_no s.store)) [
    | inl e ↦
        rw (one_unresolved autoflush quot now day ex s e)
          (IsFresh-weaken (ex.exec_id ∷ s.seen) s.seen exs (λ k c. ground arith) h.1)
    | inr (o, e) ↦ elim (Bool-cases (leb ex.qty (filled_of o.order_id s.store.fills))) [
      | inl b ↦ rw (one_resolved autoflush quot now day ex s h.0 e, b) h.1
      | inr b ↦ rw (one_resolved autoflush quot now day ex s h.0 e, b) h.1
    ]
  ]

  step_settles :
      (ex : Execution) (s : Polled)
      → IsDistinct s.store.orders
      → contains ex.exec_id s.seen ≡ false
      → Settled (step ex s).store ex
  step_settles ex s d f = elim (Option-cases (resolve_order now day ex.broker_order_no s.store)) [
    | inl e ↦ rw (one_unresolved autoflush quot now day ex s e, e) tt
    | inr (o, e) ↦
        IsSettledAs-keeps autoflush quot now day (some o) _ ex (step ex s).store (step ex s).store
          (λ id. omega arith) (rw e at (one_twin autoflush quot now day ex s ex.broker_order_no))
          (omega (arith, reached o d f e))
  ]
    where
      reached :
          (o : Order)
          → IsDistinct s.store.orders
          → contains ex.exec_id s.seen ≡ false
          → resolve_order now day ex.broker_order_no s.store ≡ some o
          → ex.qty ≤ filled_of o.order_id (step ex s).store.fills
      reached o d f e = ground (arith, one_counts autoflush quot now day ex s o.order_id d f e)

  steps_keep-Settled :
      (ex : Execution) (exs : List Execution) (s : Polled)
      → Settled s.store ex
      → Settled (steps exs s).store ex
  unfolding poll_all
  steps_keep-Settled ex [] s h = h
  steps_keep-Settled ex (e ∷ exs) s h =
      steps_keep-Settled ex exs (step e s) (one_keeps_IsSettled autoflush quot now day e ex s h)

  -- After the rounds every execution is settled.
  pub steps_settle :
      (exs : List Execution) (s : Polled)
      → IsDistinct s.store.orders
      → IsFresh s.seen exs
      → All (Settled (steps exs s).store) exs
  unfolding poll_all
  steps_settle [] s d f = tt
  steps_settle (ex ∷ exs) s d f = (
    steps_keep-Settled ex exs (step ex s) (step_settles ex s d f.0),
    steps_settle exs (step ex s) (one-IsDistinct autoflush quot now day ex s d)
        (step-IsFresh ex exs s f),
  )

  -- A round on a settled execution delivers nothing.
  step_quiet :
      (ex : Execution) (s : Polled)
      → Settled s.store ex
      → ((step ex s).store ≡ s.store) × ((step ex s).applied ≡ s.applied)
  unfolding deliver
  step_quiet ex s h = elim (Bool-cases (contains ex.exec_id s.seen)) [
    | inl c ↦ rw (one_seen autoflush quot now day ex s c) (refl, refl)
    | inr c ↦ elim (Option-cases (resolve_order now day ex.broker_order_no s.store)) [
      | inl e ↦ rw (one_unresolved autoflush quot now day ex s e) (refl, refl)
      | inr (o, e) ↦
          rw (one_resolved autoflush quot now day ex s c e)
            (ground (arith, Settled-qty s.store ex o e h))
    ]
  ]

  steps_quiet :
      (exs : List Execution) (s : Polled)
      → All (Settled s.store) exs
      → ((steps exs s).store ≡ s.store) × ((steps exs s).applied ≡ s.applied)
  unfolding poll_all
  steps_quiet [] s h = (refl, refl)
  steps_quiet (ex ∷ exs) s h =
      let (q, a) = step_quiet ex s h.0 in
      let (q', a') = steps_quiet exs (step ex s) (subst (λ st. All (Settled st) exs) (sym q) h.1) in
      (q' ∙ q, a' ∙ a)

  -- the executions of one order report at most a bound
  abbrev pub IsCapped : ℕ → ℕ → Store → Execution → Type 0
  IsCapped id bound st ex =
      (o : Order)
      → resolve_order now day ex.broker_order_no st ≡ some o
      → o.order_id ≡ id
      → ex.qty ≤ bound

  twin_back :
      (x y : Option Order) {o' : Order}
      → OptionTwin x y
      → y ≡ some o'
      → (o : Order) × (x ≡ some o) × (o'.order_id ≡ o.order_id)
  twin_back none none t e = cc
  twin_back (some o) (some p) t e = (o, refl, ground arith)
  twin_back none (some p) t e = absurd t
  twin_back (some o) none t e = absurd t

  step-IsCapped :
      (id bound : ℕ) (ex ex' : Execution) (s : Polled)
      → IsCapped id bound s.store ex'
      → IsCapped id bound (step ex s).store ex'
  step-IsCapped id bound ex ex' s c o' e i =
      let (o, x, same) =
        twin_back _ _ (one_twin autoflush quot now day ex s ex'.broker_order_no) e in
      c o x (sym same ∙ i)

  steps-IsCapped :
      (id bound : ℕ) (ex : Execution) (exs : List Execution) (s : Polled)
      → All (IsCapped id bound s.store) exs
      → All (IsCapped id bound (step ex s).store) exs
  steps-IsCapped id bound ex [] s h = tt
  steps-IsCapped id bound ex (e ∷ exs) s h =
      (step-IsCapped id bound ex e s h.0, steps-IsCapped id bound ex exs s h.1)

  step_bounded :
      (id bound : ℕ) (ex : Execution) (s : Polled)
      → IsDistinct s.store.orders
      → IsCapped id bound s.store ex
      → filled_of id s.store.fills ≤ bound
      → filled_of id (step ex s).store.fills ≤ bound
  step_bounded id bound ex s d c b = elim (Bool-cases (contains ex.exec_id s.seen)) [
    | inl e ↦ rw (one_seen autoflush quot now day ex s e) b
    | inr f ↦ elim (Option-cases (resolve_order now day ex.broker_order_no s.store)) [
      | inl e ↦ rw (one_unresolved autoflush quot now day ex s e) b
      | inr (o, e) ↦ ground (arith, one_counts autoflush quot now day ex s id d f e, c o e)
    ]
  ]

  steps_bounded :
      (id bound : ℕ) (exs : List Execution) (s : Polled)
      → IsDistinct s.store.orders
      → All (IsCapped id bound s.store) exs
      → filled_of id s.store.fills ≤ bound
      → filled_of id (steps exs s).store.fills ≤ bound
  unfolding poll_all
  steps_bounded id bound [] s d c b = b
  steps_bounded id bound (ex ∷ exs) s d c b =
      steps_bounded id bound exs (step ex s) (one-IsDistinct autoflush quot now day ex s d)
        (steps-IsCapped id bound ex exs s c.1) (step_bounded id bound ex s d c.0 b)

  abbrev pub poll_of : List Execution → List ℕ → Store → Polled
  poll_of = poll_locked quot (to_manager autoflush quot now day) now day

  -- With unique ids and executions that were not seen before, a poll brings the fill rows of every
  -- matched order up to the quantity that the broker reports.
  pub poll_settles :
      (exs : List Execution) (seen : List ℕ) (st : Store)
      → IsDistinct st.orders
      → IsFresh seen exs
      → All (Settled (poll_of exs seen st).store) exs
  unfolding poll_locked
  poll_settles exs seen st d f = steps_settle exs _ d f

  -- A poll never counts more shares for an order than the broker reports: a bound on the executions
  -- of the order and on its fill rows before is one on its fill rows after.
  pub poll_bounded :
      (id bound : ℕ) (exs : List Execution) (seen : List ℕ) (st : Store)
      → IsDistinct st.orders
      → All (IsCapped id bound st) exs
      → filled_of id st.fills ≤ bound
      → filled_of id (poll_of exs seen st).store.fills ≤ bound
  unfolding poll_locked
  poll_bounded id bound exs seen st d c b = steps_bounded id bound exs _ d c b

  -- The same answer of the broker once more, after a restart that has forgotten what was seen,
  -- delivers no fill and leaves the database as it is.
  pub poll_again :
      (exs : List Execution) (st : Store)
      → IsDistinct st.orders
      → IsFresh [] exs
      → let st' = (poll_of exs [] st).store in
        ((poll_of exs [] st').store ≡ st') × ((poll_of exs [] st').applied ≡ 0)
  unfolding poll_locked
  poll_again exs st d f = steps_quiet exs _ (steps_settle exs _ d f)
