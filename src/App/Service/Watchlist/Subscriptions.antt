-- ===== src/App/Service/Watchlist/Subscriptions.antt =====
-- Prices are asked for every ticker that needs them.
use short_trading_bot.Base.{
  ℕ, ◌≡◌, refl, Bool, true, not, some, List, [], ◌∷◌, ◌++◌, map, arith, contains, keep_if, ◌<◌, ◌⊎◌,
  false, find_by-key, get_at, Option-cases, Bool-cases, inl, inr, ℕ_discrete,
}
use short_trading_bot.Domain.Enums.{Resolution, Side, buy, sell}
use short_trading_bot.Domain.Position.{Lot}
use short_trading_bot.App.Service.State.{
  World, find_lot, lot_key, lock_key, tracked_lots, slot_lots,
}
use short_trading_bot.App.Service.Watchlist.{
  Template, Watch, ticker_of, needs_prices, tracked_tickers, with_templates,
}

in_first : (k : ℕ) (xs ys : List ℕ) → contains k xs ≡ true → contains k (xs ++ ys) ≡ true
in_first k [] ys h = ground arith
in_first k (x ∷ xs) ys h = ground (arith, in_first k xs ys)

in_second : (k : ℕ) (xs ys : List ℕ) → contains k ys ≡ true → contains k (xs ++ ys) ≡ true
in_second k [] ys h = h
in_second k (x ∷ xs) ys h = ground (arith, in_second k xs ys h)

slot_tickers :
    (slots : List ((ℕ × Resolution) × ℕ)) (lots : List Lot) (id : ℕ) {lot : Lot}
    → find_lot id lots ≡ some lot
    → contains id (map (λ s. s.1) slots) ≡ true
    → contains lot.ticker (map ticker_of (slot_lots slots lots)) ≡ true
unfolding slot_lots
slot_tickers [] lots id f c = ground arith
slot_tickers ((k, j) ∷ slots) lots id {lot} f c = elim (Option-cases (find_lot j lots)) [
  | inl e ↦ rw (slot_lots, e) (slot_tickers slots lots id f (ground arith))
  | inr (l, e) ↦ elim (ℕ_discrete j id) [
    | yes same ↦ let eq : l ≡ lot = ground arith in rw (slot_lots, e) (ground arith)
    | no ne ↦
        let rest = slot_tickers slots lots id f (ground arith) in rw (slot_lots, e) (ground arith)
  ]
]

off_slot_tickers :
    (p q : Lot → Bool) (lots : List Lot) (lot : Lot) (id : ℕ)
    → find_lot id lots ≡ some lot
    → p lot ≡ true
    → q lot ≡ true
    → contains lot.ticker (map ticker_of (keep_if p (keep_if q lots))) ≡ true
off_slot_tickers p q [] lot id f h g = ground arith
off_slot_tickers p q (l ∷ lots) lot id f h g = ground (arith, off_slot_tickers p q lots lot id)

keep_if-append :
    (p : Lot → Bool) (xs ys : List Lot) → keep_if p (xs ++ ys) ≡ keep_if p xs ++ keep_if p ys
keep_if-append p [] ys = refl
keep_if-append p (x ∷ xs) ys = ground (arith, keep_if-append p xs ys)

map-append : (xs ys : List Lot) → map ticker_of (xs ++ ys) ≡ map ticker_of xs ++ map ticker_of ys
map-append [] ys = refl
map-append (x ∷ xs) ys = ground (arith, map-append xs ys)

template_tickers :
    (k : ℕ) (d : List (ℕ × List Template)) (t : Template) (ts : List Template)
    → get_at k d ≡ some (t ∷ ts)
    → contains k (with_templates d) ≡ true
unfolding get_at
template_tickers k [] t ts h = ground arith
template_tickers k ((i, []) ∷ d) t ts h = ground (arith, template_tickers k d t ts)
template_tickers k ((i, s ∷ ss) ∷ d) t ts h = ground (arith, template_tickers k d t ts)

abbrev in_no_slot : World → Lot → Bool
in_no_slot w lot = not (contains lot.lot_id (map (λ s. s.1) w.slots))

-- A lot that has a slot, that holds shares, or of which an order keeps a lock.
abbrev pub NeedsPrices : ℕ → Lot → World → Type 0
NeedsPrices id lot w =
    (contains id (map (λ s. s.1) w.slots) ≡ true)
    ⊎ (0 < lot.qty)
    ⊎ ((side : Side) × (cid : ℕ) × (get_at (lock_key id side) w.pending ≡ some cid))

needs_prices_lem :
    (id : ℕ) (lot : Lot) (w : World)
    → lot.lot_id ≡ id
    → NeedsPrices id lot w
    → contains id (map (λ s. s.1) w.slots) ≡ false
    → needs_prices w lot ≡ true
unfolding needs_prices
needs_prices_lem id lot w k (inl h) e = ground arith
needs_prices_lem id lot w k (inr (inl h)) e = ground arith
needs_prices_lem id lot w k (inr (inr (buy, cid, h))) e = rw (k, h) (ground arith)
needs_prices_lem id lot w k (inr (inr (sell, cid, h))) e = rw (k, h) (ground arith)

-- The tickers whose prices are asked for have every ticker with a template, and the ticker of every
-- lot that has a slot, that holds shares or that keeps a lock, in its slot or not.
pub tracked_tickers_lem :
    (watch : Watch) (w : World)
    → ((k : ℕ) (t : Template) (ts : List Template)
        → get_at k watch.by_ticker ≡ some (t ∷ ts)
        → contains k (tracked_tickers watch w) ≡ true)
      × ((id : ℕ) (lot : Lot)
          → find_lot id w.lots ≡ some lot
          → NeedsPrices id lot w
          → contains lot.ticker (tracked_tickers watch w) ≡ true)
unfolding tracked_tickers tracked_lots
tracked_tickers_lem watch w = (
  λ k t ts h. in_first k (with_templates watch.by_ticker) _ (template_tickers k _ t ts h),
  λ id lot f n.
      let rest : List Lot = keep_if (in_no_slot w) w.lots in
      let key : lot.lot_id ≡ id = find_by-key lot_key id w.lots f in
      in_second lot.ticker (with_templates watch.by_ticker) _
        (elim (Bool-cases (contains id (map (λ s. s.1) w.slots))) [
          | inl e ↦ in_first lot.ticker _ _ (slot_tickers w.slots w.lots id f e)
          | inr e ↦ in_second lot.ticker (map ticker_of (slot_lots w.slots w.lots)) _ (
              rw
                (
                  keep_if-append (needs_prices w) (slot_lots w.slots w.lots) rest,
                  map-append (keep_if (needs_prices w) (slot_lots w.slots w.lots))
                      (keep_if (needs_prices w) rest),
                )
                (in_second lot.ticker
                  (map ticker_of (keep_if (needs_prices w) (slot_lots w.slots w.lots))) _
                  (off_slot_tickers (needs_prices w) (in_no_slot w) w.lots lot id f
                    (needs_prices_lem id lot w key n e) (rw (key, e) refl))))
        ]),
)
