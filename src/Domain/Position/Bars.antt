-- ===== src/Domain/Position/Bars.antt =====
-- The peak price that the trailing stop starts from.
use short_trading_bot.Base.{ℕ, ◌+◌, max, ◌≡◌, ◌∙◌, true, List, [], ◌∷◌, length, arith}
use short_trading_bot.Domain.Position.{Lot, is_open, on_bar}

-- the highs of the bars that pass while the lot is open
unfoldable pub on_bars : List ℕ → Lot → Lot
on_bars [] lot = lot
on_bars (high ∷ highs) lot = on_bars highs (on_bar high lot)

on_bar_open :
    (high : ℕ) (lot : Lot)
    → is_open lot.state ≡ true
    → let lot' = on_bar high lot in
      (lot'.state ≡ lot.state)
      × (lot'.peak_price ≡ max lot.peak_price high)
      × (lot'.bars_held ≡ lot.bars_held + 1)
unfolding on_bar
on_bar_open high lot h = ground arith

-- the highest of a price and the bars' highs
abbrev pub highest : ℕ → List ℕ → ℕ
highest p [] = p
highest p (x ∷ xs) = highest (max p x) xs

-- While a lot is open, its peak is the highest of the price that it began with and the highs of the
-- bars, each bar is counted, and its state stays.
pub on_bars_peak :
    (highs : List ℕ) (lot : Lot)
    → is_open lot.state ≡ true
    → let lot' = on_bars highs lot in
      (lot'.peak_price ≡ highest lot.peak_price highs)
      × (lot'.bars_held ≡ lot.bars_held + length highs)
      × (lot'.state ≡ lot.state)
unfolding on_bars
on_bars_peak [] lot h = ground arith
on_bars_peak (x ∷ xs) lot h =
    let (s, p, b) = on_bar_open x lot h in
    let (p', b', s') = on_bars_peak xs (on_bar x lot) (rw s h) in
    (rw (← p) p', omega (arith, b, b'), s' ∙ s)
