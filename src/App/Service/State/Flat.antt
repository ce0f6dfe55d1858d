-- ===== src/App/Service/State/Flat.antt =====
-- `is_flat` sees every lot that the service knows.
use short_trading_bot.Base.{
  ℕ, ◌≡◌, refl, Bool, true, false, not, ◌||◌, some, List, [], ◌∷◌, ◌++◌, map, arith, contains,
  keep_if, find_by-key, Option-cases, Bool-cases, inl, inr, ℕ_discrete,
}
use short_trading_bot.Domain.Enums.{Resolution}
use short_trading_bot.Domain.Position.{Lot}
use short_trading_bot.App.Service.State.{
  World, find_lot, lot_key, is_flat, tracked_lots, slot_lots, any_held,
}

any_held-append : (xs ys : List Lot) → any_held (xs ++ ys) ≡ (any_held xs || any_held ys)
unfolding any_held
any_held-append [] ys = refl
any_held-append (x ∷ xs) ys = ground (arith, any_held-append xs ys)

held_in_slots :
    (slots : List ((ℕ × Resolution) × ℕ)) (lots : List Lot) (id : ℕ) {lot : Lot}
    → find_lot id lots ≡ some lot
    → contains id (map (λ s. s.1) slots) ≡ true
    → any_held (slot_lots slots lots) ≡ false
    → lot.qty ≡ 0
unfolding slot_lots any_held
held_in_slots [] lots id f c h = ground arith
held_in_slots ((k, j) ∷ slots) lots id {lot} f c h = elim (Option-cases (find_lot j lots)) [
  | inl e ↦ held_in_slots slots lots id f (ground arith) (ground arith)
  | inr (l, e) ↦ elim (ℕ_discrete j id) [
    | yes same ↦ let eq : l ≡ lot = ground arith in ground arith
    | no ne ↦ held_in_slots slots lots id f (ground arith) (ground arith)
  ]
]

held_in_rest :
    (p : Lot → Bool) (lots : List Lot) (id : ℕ) {lot : Lot}
    → find_lot id lots ≡ some lot
    → p lot ≡ true
    → any_held (keep_if p lots) ≡ false
    → lot.qty ≡ 0
unfolding any_held
held_in_rest p [] id f c h = ground arith
held_in_rest p (l ∷ lots) id {lot} f c h = ground (arith, held_in_rest p lots id {lot = lot})

-- When the service counts as flat, no lot that it knows holds shares, in its slot or not, no order
-- keeps a lock, no purchase is cancelled without its fills taken in, and the fills since the last
-- start have been taken in.
pub is_flat_sees :
    (w : World)
    → is_flat w ≡ true
    → ((id : ℕ) (lot : Lot) → find_lot id w.lots ≡ some lot → lot.qty ≡ 0)
      × (w.pending ≡ [])
      × (w.unconfirmed_buy_cancels ≡ [])
      × (w.startup_refresh_pending ≡ false)
unfolding is_flat tracked_lots
is_flat_sees w h = (
  λ id lot f.
      let both =
        any_held-append (slot_lots w.slots w.lots)
          (keep_if (λ l. not (contains l.lot_id (map (λ s. s.1) w.slots))) w.lots) in
      let key : lot.lot_id ≡ id = find_by-key lot_key id w.lots f in
      elim (Bool-cases (contains id (map (λ s. s.1) w.slots))) [
        | inl t ↦ held_in_slots w.slots w.lots id f t (ground arith)
        | inr n ↦
            held_in_rest (λ l. not (contains l.lot_id (map (λ s. s.1) w.slots))) w.lots id f
              (rw (key, n)) (ground arith)
      ],
  ground arith,
  ground arith,
  ground arith,
)
