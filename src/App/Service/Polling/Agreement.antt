-- ===== src/App/Service/Polling/Agreement.antt =====
-- A poll keeps the lots in memory in step with the rows of the database.
use short_trading_bot.Base.{
  ℕ, Bool, true, false, Option, none, some, List, [], ◌∷◌, leb, contains, Option-cases, Bool-cases,
  inl, inr,
}
use short_trading_bot.Execution.Types.{Execution}
use short_trading_bot.Execution.Fx.{FxRates}
use short_trading_bot.Execution.FillPoller.{Applied, resolve, delta_fill}
use short_trading_bot.App.Service.State.{World}
use short_trading_bot.App.Service.Handler.{on_fill}
use short_trading_bot.App.Service.Handler.Steps.{IsInStep}
use short_trading_bot.App.Service.Handler.Links.{IsLinked, on_fill-IsLinked}
use short_trading_bot.App.Service.Handler.Agreement.{on_fill-IsInStep}
use short_trading_bot.App.Service.Polling.{
  poll_one, poll_all, deliver_fill, marked, refreshed, refresh_with, refresh_fills, keep_overseas,
  clear_barriers, Answer,
}

-- Memory and database agree: on the figures of the lots, and on what an order is for.
pub record IsAgreed (w : World) : Type 0 where
  pub is_linked : IsLinked w
  pub is_in_step : IsInStep w

marked-IsAgreed :
    (autoflush : Bool) (quot : ℕ → ℕ → ℕ) (rates : FxRates) (now : ℕ) (day : Option ℕ) (id : ℕ)
    (out : World × Bool)
    → IsAgreed out.0
    → IsAgreed (marked autoflush quot rates now day id out).0
marked-IsAgreed autoflush quot rates now day id (w, true) a = a
marked-IsAgreed autoflush quot rates now day id (w, false) a = record {
  is_linked = a.is_linked;
  is_in_step = a.is_in_step;
}

module _ (autoflush : Bool) (quot : ℕ → ℕ → ℕ) (rates : FxRates) (now : ℕ) where
  deliver_fill-IsAgreed :
      (day : Option ℕ) (ex : Execution) (r : Applied) (w : World)
      → IsAgreed w
      → IsAgreed (deliver_fill autoflush quot rates now day ex r w).0
  unfolding deliver_fill
  deliver_fill-IsAgreed day ex r w a =
      let fill = delta_fill quot day ex r in
      elim (Bool-cases (leb ex.qty r.qty)) [
        | inl t ↦
            rw (deliver_fill, t) (record { is_linked = a.is_linked; is_in_step = a.is_in_step })
        | inr f ↦
            rw (deliver_fill, f)
              (marked-IsAgreed autoflush quot rates now day ex.exec_id
                (on_fill autoflush quot rates now fill w)
                (record {
                  is_linked = on_fill-IsLinked autoflush quot rates now fill w a.is_linked;
                  is_in_step =
                      on_fill-IsInStep autoflush quot rates now fill w a.is_linked a.is_in_step;
                }))
      ]

  poll_one-IsAgreed :
      (day : Option ℕ) (ex : Execution) (w : World)
      → IsAgreed w
      → IsAgreed (poll_one autoflush quot rates now day ex w).0
  unfolding poll_one
  poll_one-IsAgreed day ex w a = elim (Bool-cases (contains ex.exec_id w.seen)) [
    | inl t ↦ rw (poll_one, t) a
    | inr f ↦ elim (Option-cases (resolve now day ex.broker_order_no w.store)) [
      | inl e ↦ rw (poll_one, f, e) a
      | inr (r, e) ↦ rw (poll_one, f, e) (deliver_fill-IsAgreed day ex r w a)
    ]
  ]

  -- A poll keeps memory and database in agreement, whatever the broker reports, also where a handler
  -- raises.
  pub poll_all-IsAgreed :
      (day : Option ℕ) (exs : List Execution) (w : World)
      → IsAgreed w
      → IsAgreed (poll_all autoflush quot rates now day exs w).0
  unfolding poll_all
  poll_all-IsAgreed day [] w a = a
  poll_all-IsAgreed day (ex ∷ exs) w a =
      let w' = (poll_one autoflush quot rates now day ex w).0 in
      let a' = poll_one-IsAgreed day ex w a in
      elim (Bool-cases (poll_one autoflush quot rates now day ex w).1) [
        | inl t ↦ rw (poll_all, t) a'
        | inr f ↦ rw (poll_all, f) (poll_all-IsAgreed day exs w' a')
      ]

  refreshed-IsAgreed :
      (lot : Option ℕ) (complete : Bool) (out : World × Bool)
      → IsAgreed out.0
      → IsAgreed (refreshed lot complete out).0
  unfolding refreshed keep_overseas clear_barriers
  refreshed-IsAgreed lot complete (w, true) a = a
  refreshed-IsAgreed lot true (w, false) a = record {
    is_linked = a.is_linked;
    is_in_step = a.is_in_step;
  }
  refreshed-IsAgreed lot false (w, false) a = record {
    is_linked = a.is_linked;
    is_in_step = a.is_in_step;
  }

  pub refresh_fills-IsAgreed :
      (answer : World → Answer) (lot : Option ℕ) (w : World)
      → IsAgreed w
      → IsAgreed (refresh_fills autoflush quot rates now answer lot w).0
  unfolding refresh_fills
  refresh_fills-IsAgreed answer lot w a = with_answer (answer w)
    where
      with_answer : (x : Answer) → IsAgreed (refresh_with autoflush quot rates now lot x w).0
      with_answer none = a
      with_answer (some (exs, complete)) =
          refreshed-IsAgreed lot complete (poll_all autoflush quot rates now none exs w)
            (poll_all-IsAgreed none exs w a)
