-- ===== src/App/Service/Orders/Barrier.antt =====
-- Sales and the fills that have not been taken in: what goes out is covered by the shares that are left.
use short_trading_bot.Base.{
  ℕ, ◌≤◌, ◌<◌, min, ◌≡◌, refl, sym, ap, ◌∙◌, ◌⊎◌, inl, inr, Bool, true, false, ◌||◌, arith, ◌==◌,
  contains, Bool-cases,
}
use short_trading_bot.Domain.Enums.{sell}
use short_trading_bot.Domain.Position.{Lot}
use short_trading_bot.Execution.OrderManager.{returned, raised}
use short_trading_bot.App.Service.State.{World, lock_key, add_to}
use short_trading_bot.App.Service.Orders.{
  Outside, Run, and_then, Next, submit, release_if_terminal, refresh_then, refresh, past_barrier,
  past_lock, after_refresh, after_release, after_cancel, cancel_pending, place, qty_now,
}
use short_trading_bot.App.Service.Orders.Locks.{release_cases}

-- fills have to be taken in before a sale of the lot
abbrev pub is_barred : Lot → World → Bool
is_barred lot w = contains lot.lot_id w.refresh_before_sell || w.startup_refresh_pending

-- The next step of a sale, with a quantity that the lot covers.
abbrev Covered : Outside → Lot → ℕ → Next → Run Bool → Type 0
Covered env lot qty next r =
    (q : ℕ) × (w' : World) × (0 < q) × (q ≤ qty) × (q ≤ qty_now lot w') × (r ≡ next q w')

after_refresh-Covered :
    (env : Outside) (lot : Lot) (qty : ℕ) (next : Next) (out : World × Bool)
    → (after_refresh env lot qty next out).1 ≡ returned true
    → Covered env lot qty next (after_refresh env lot qty next out)
after_refresh-Covered env lot qty next (w, false) h = cc
after_refresh-Covered env lot qty next (w, true) h =
    elim (Bool-cases (min qty (qty_now lot w) == 0)) [
      | inl z ↦ ground arith
      | inr n ↦ (
        min qty (qty_now lot w),
        w,
        ground arith,
        ground arith,
        ground arith,
        rw (after_refresh, n),
      )
    ]

refresh_then-Covered :
    (env : Outside) (lot : Lot) (qty : ℕ) (next : Next) (w : World)
    → (refresh_then env lot qty next w).1 ≡ returned true
    → Covered env lot qty next (refresh_then env lot qty next w)
unfolding refresh_then
refresh_then-Covered env lot qty next w h =
    after_refresh-Covered env lot qty next (refresh env lot w) h

-- The next step of a sale in place of one that is at work, or with the lock free.
abbrev Passed : Outside → Lot → ℕ → Next → World → Run Bool → Type 0
Passed env lot qty next w r =
    ((r ≡ next qty (release_if_terminal (lock_key lot.lot_id sell) w).0)
      × ((release_if_terminal (lock_key lot.lot_id sell) w).1 ≡ true))
    ⊎ Covered env lot qty next r

after_cancel-Covered :
    (env : Outside) (lot : Lot) (qty : ℕ) (next : Next) (r : Run Bool)
    → (and_then r (after_cancel env lot sell qty next)).1 ≡ returned true
    → Covered env lot qty next (and_then r (after_cancel env lot sell qty next))
after_cancel-Covered env lot qty next (w, raised) h = cc
after_cancel-Covered env lot qty next (w, returned false) h = cc
after_cancel-Covered env lot qty next (w, returned true) h =
    refresh_then-Covered env lot qty next
      (record w { refresh_before_sell = add_to lot.lot_id w.refresh_before_sell }) h

after_release-Passed :
    (env : Outside) (replace : Bool) (lot : Lot) (qty : ℕ) (next : Next) (w : World)
    (out : World × Bool)
    → release_if_terminal (lock_key lot.lot_id sell) w ≡ out
    → (after_release env replace lot sell qty next out).1 ≡ returned true
    → Passed env lot qty next w (after_release env replace lot sell qty next out)
after_release-Passed env replace lot qty next w (w', true) e k = inl (rw e refl, rw e refl)
after_release-Passed env true lot qty next w (w', false) e k =
    inr (after_cancel-Covered env lot qty next (cancel_pending env lot sell w') k)
after_release-Passed env false lot qty next w (w', false) e k = cc

past_lock-Passed :
    (env : Outside) (replace : Bool) (lot : Lot) (qty : ℕ) (next : Next) (w : World)
    → (past_lock env replace lot sell qty next w).1 ≡ returned true
    → Passed env lot qty next w (past_lock env replace lot sell qty next w)
unfolding past_lock
past_lock-Passed env replace lot qty next w h =
    after_release-Passed env replace lot qty next w
      (release_if_terminal (lock_key lot.lot_id sell) w) refl h

release-lots : (key : ℕ) (w : World) → (release_if_terminal key w).0.lots ≡ w.lots
release-lots key w = elim (release_cases key w) [
  | inl (e, r) ↦ rw r
  | inr (held, e, inl (t, r)) ↦ rw r
  | inr (held, e, inr (n, r)) ↦ rw r
]

not_sent : returned false ≡ returned true → ⊥
not_sent e = cc

neither : {b c : Bool} → b ≡ false → c ≡ true → (b ≡ true) ⊎ (c ≡ false) → ⊥
neither e f (inl g) = cc
neither e f (inr g) = cc

module _ (env : Outside) (replace : Bool) (lot : Lot) (price : ℕ) (is_add : Bool) where
  abbrev send : Next
  send q w = place env lot sell price q is_add w

  abbrev lock_step : Next
  lock_step q w = past_lock env replace lot sell q send w

  submit_none :
      (qty : ℕ) (w : World)
      → (qty == 0) ≡ true
      → submit env replace lot sell qty price is_add w ≡ (w, returned false)
  unfolding submit
  submit_none qty w z = rw (submit, z)

  submit_behind :
      (qty : ℕ) (w : World)
      → (qty == 0) ≡ false
      → is_barred lot w ≡ true
      → submit env replace lot sell qty price is_add w ≡ refresh_then env lot qty lock_step w
  unfolding submit past_barrier
  submit_behind qty w z t = rw (submit, z, past_barrier, t)

  submit_free :
      (qty : ℕ) (w : World)
      → (qty == 0) ≡ false
      → is_barred lot w ≡ false
      → submit env replace lot sell qty price is_add w ≡ lock_step qty w
  unfolding submit past_barrier
  submit_free qty w z f = rw (submit, z, past_barrier, f)

  -- a sale of a quantity that the lot covers goes out
  abbrev pub IsCoveredSale : ℕ → Run Bool → Type 0
  IsCoveredSale qty r =
      (q : ℕ) × (w' : World) × (q ≤ qty)
      × (q ≤ qty_now lot w')
      × (r ≡ place env lot sell price q is_add w')

  lock_step-IsCoveredSale :
      (q : ℕ) (w : World)
      → q ≤ qty_now lot w
      → (lock_step q w).1 ≡ returned true
      → IsCoveredSale q (lock_step q w)
  lock_step-IsCoveredSale q w le h = elim (past_lock-Passed env replace lot q send w h) [
    | inl (e, _) ↦ (
      q,
      (release_if_terminal (lock_key lot.lot_id sell) w).0,
      ground arith,
      rw (qty_now, release-lots (lock_key lot.lot_id sell) w) le,
      e,
    )
    | inr (q', w', _, b, c, e) ↦ (q', w', b, c, e)
  ]

  -- A sale that goes out when fills had to be taken in first, or another sale of the lot was at work,
  -- is of no more than was asked for and of no more than the shares that the lot has then.
  pub submit-IsCoveredSale :
      (qty : ℕ) (w : World)
      → (is_barred lot w ≡ true) ⊎ ((release_if_terminal (lock_key lot.lot_id sell) w).1 ≡ false)
      → (submit env replace lot sell qty price is_add w).1 ≡ returned true
      → IsCoveredSale qty (submit env replace lot sell qty price is_add w)
  submit-IsCoveredSale qty w need h = elim (Bool-cases (qty == 0)) [
    | inl z ↦ absurd (not_sent (sym (ap (λ r. r.1) (submit_none qty w z)) ∙ h))
    | inr n ↦ elim (Bool-cases (is_barred lot w)) [
      | inl t ↦
          let (q0, w0, _, b, c, e) =
            refresh_then-Covered env lot qty lock_step w
              (sym (ap (λ r. r.1) (submit_behind qty w n t)) ∙ h) in
          let (q1, w1, b1, c1, e1) =
            lock_step-IsCoveredSale q0 w0 c
              (sym (ap (λ r. r.1) (submit_behind qty w n t ∙ e)) ∙ h) in
          (q1, w1, omega arith, c1, submit_behind qty w n t ∙ e ∙ e1)
      | inr f ↦
          elim (past_lock-Passed env replace lot qty send w
            (sym (ap (λ r. r.1) (submit_free qty w n f)) ∙ h)) [
              | inl (e, freed_lock) ↦ absurd (neither f freed_lock need)
              | inr (q', w', _, b, c, e) ↦ (q', w', b, c, submit_free qty w n f ∙ e)
            ]
    ]
  ]
