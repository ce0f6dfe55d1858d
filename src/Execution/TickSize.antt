-- ===== src/Execution/TickSize.antt =====
-- short_trading_bot/execution/tick_size.py: prices in units of 10^-8 won, the last decimal of a money
-- column. A tick is 5 won times a power of ten or twice one, so the quotient that the source rounds
-- is exact.
pub mod Rounding
use short_trading_bot.Base.{ℕ, ◌+◌, ◌-◌, ◌*◌, ◌/◌, max, List, [], ◌∷◌, ltb, if◌then◌else◌}
use short_trading_bot.Domain.Enums.{Side, is_buy}

abbrev pub won : ℕ
won = 100_000_000

-- `_BANDS`: the upper end of a band of prices, and its tick
abbrev pub bands : List (ℕ × ℕ)
bands =
    (2000 * won, 5 * won)
    ∷ (5000 * won, 5 * won)
    ∷ (20_000 * won, 10 * won)
    ∷ (50_000 * won, 50 * won)
    ∷ (200_000 * won, 100 * won)
    ∷ (500_000 * won, 500 * won)
    ∷ []

-- `_TOP_TICK`
abbrev pub top_tick : ℕ
top_tick = 1000 * won

tick_in : List (ℕ × ℕ) → ℕ → ℕ
tick_in [] price = top_tick
tick_in ((upper, tick) ∷ rest) price =
    let next = tick_in rest price in if ltb price upper then tick else next

unfoldable pub tick_size : ℕ → ℕ
unfolding tick_in
tick_size price = tick_in bands price

-- `(price / tick).quantize(1, ROUND_UP or ROUND_DOWN) * tick`
unfoldable pub align : Side → ℕ → ℕ → ℕ
align side price tick = (if is_buy side then (price + tick - 1) / tick else price / tick) * tick

unfoldable pub round_to_tick : ℕ → Side → ℕ
unfolding tick_size align
round_to_tick price side = max (align side price (tick_size price)) (tick_size price)
