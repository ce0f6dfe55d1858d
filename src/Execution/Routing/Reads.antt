-- ===== src/Execution/Routing/Reads.antt =====
-- What the router makes of a leg abroad that fails.
use mathlib.Core.List.{append-nil}
use short_trading_bot.Base.{
  ℕ, zero, suc, ◌+◌, ◌≤◌, ◌<◌, ◌≡◌, refl, ap, ◌∙◌, ◌⊎◌, inl, inr, true, false, Option, none, some,
  List, [], ◌∷◌, ◌++◌, leb, find_by, arith, min, Bool-cases,
}
use short_trading_bot.Domain.Enums.{unknown, rejected}
use short_trading_bot.Execution.Types.{Execution, OrderRecord}
use short_trading_bot.Execution.Store.{Order, Store}
use short_trading_bot.Execution.UnknownResolver.{
  order_id_key, load_unknowns, linked, order_signature, get_list, candidates, poll_once,
}
use short_trading_bot.Execution.UnknownResolver.Adoption.{poll_once_gives_up}
use short_trading_bot.Execution.Routing.{
  Router, fail_limit, overseas_call, overseas_read, get_executions, get_daily_orders,
}

-- a leg abroad that is configured and fails at every call
unfoldable pub failing_reads : ℕ → Router → Router
failing_reads zero r = r
failing_reads (suc n) r = failing_reads n (overseas_call {A = List OrderRecord} none [] r).1

-- The executions are reported as complete exactly when there is no leg abroad, or it has answered
-- and was not resting; they are then those of both legs, and otherwise those at home.
pub get_executions_complete :
    (home : List Execution) (abroad : Option (Option (List Execution))) (r : Router)
    → let (all, r') = get_executions home abroad r in
      ((r'.executions_complete ≡ true)
        × (((abroad ≡ none) × (all ≡ home ++ []))
            ⊎ ((more : List Execution) × (abroad ≡ some (some more))
                × (r.overseas_fail < fail_limit)
                × (all ≡ home ++ more))))
      ⊎ ((r'.executions_complete ≡ false)
          × (all ≡ home ++ [])
          × ((fail_limit ≤ r.overseas_fail) ⊎ (abroad ≡ some none)))
unfolding get_executions overseas_read overseas_call
get_executions_complete home none r = inl (refl, inl (refl, refl))
get_executions_complete home (some none) r = elim (Bool-cases (leb fail_limit r.overseas_fail)) [
  | inl h ↦ inr (rw h (ground arith, refl, inl (ground arith)))
  | inr h ↦ inr (rw h (ground arith, refl, inr refl))
]
get_executions_complete home (some (some more)) r =
    elim (Bool-cases (leb fail_limit r.overseas_fail)) [
      | inl h ↦ inr (rw h (ground arith, refl, inl (ground arith)))
      | inr h ↦ inl (rw h (ground arith, inr (more, refl, ground arith, refl)))
    ]

-- A leg abroad that fails at every call is asked three times at most: from then on it rests.
pub failing_reads_lem :
    (n : ℕ) (r : Router)
    → r.overseas_fail ≤ fail_limit
    → (failing_reads n r).overseas_fail ≡ min fail_limit (r.overseas_fail + n)
unfolding failing_reads overseas_call
failing_reads_lem zero r h = ground arith
failing_reads_lem (suc n) r h = elim (Bool-cases (leb fail_limit r.overseas_fail)) [
  | inl l ↦
      rw (failing_reads, l) (failing_reads_lem n r h ∙ at_limit r.overseas_fail n h (ground arith))
  | inr l ↦
      rw (failing_reads, l)
        (failing_reads_lem n (record r { overseas_fail = r.overseas_fail + 1 }) (ground arith)
          ∙ ap (λ k. min fail_limit k) (shift r.overseas_fail n))
]
  where
    at_limit :
        (k n : ℕ)
        → k ≤ fail_limit
        → fail_limit ≤ k
        → min fail_limit (k + n) ≡ min fail_limit (k + suc n)
    at_limit k n h l = omega arith

    shift : (k n : ℕ) → k + 1 + n ≡ k + suc n
    shift k n = omega arith

only_home : (home : List OrderRecord) (r : Router) → (get_daily_orders home (some none) r).0 ≡ home
unfolding get_daily_orders overseas_read overseas_call
only_home home r = elim (Bool-cases (leb fail_limit r.overseas_fail)) [
  | inl h ↦ rw h (append-nil home)
  | inr h ↦ rw h (append-nil home)
]

-- An order abroad whose submission timed out is given up after the grace time when the leg abroad
-- fails or rests, whatever it would have listed: the router passes on the list at home alone.
pub given_up_unseen :
    (now grace : ℕ) (before after : Store) (x : Order × ℕ) (row : Order) (home : List OrderRecord)
    (r : Router)
    → load_unknowns now before ≡ x ∷ []
    → get_list (order_signature x) (candidates (linked now before) home) ≡ []
    → find_by order_id_key x.0.order_id after.orders ≡ some row
    → x.0.state ≡ unknown
    → row.state ≡ unknown
    → x.0.created_at + grace ≤ now
    → let records = (get_daily_orders home (some none) r).0 in
      let p = poll_once now grace before records after in
      (find_by order_id_key x.0.order_id p.store.orders ≡ some (record row { state = rejected }))
      × (p.resolved ≡ 1)
given_up_unseen now grace before after x row home r one off e s s' old =
    let alone = only_home home r in
    let (lost, counted, _) =
      poll_once_gives_up now grace before (get_daily_orders home (some none) r).0 after x row one
        (ap (λ l. get_list (order_signature x) (candidates (linked now before) l)) alone ∙ off) e s
        s' old in
    (lost, counted)
