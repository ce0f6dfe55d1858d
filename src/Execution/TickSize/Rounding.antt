-- ===== src/Execution/TickSize/Rounding.antt =====
-- What rounding to the tick guarantees.
use short_trading_bot.Base.{ℕ, ◌+◌, ◌%◌, ◌≤◌, ◌<◌, ◌≡◌, arith}
use short_trading_bot.Domain.Enums.{Side, buy, sell}
use short_trading_bot.Execution.TickSize.{tick_size, round_to_tick}

-- The rounded price is positive and a whole number of ticks, also of the tick of the band that it
-- has itself moved into.
pub round_to_tick_valid :
    (price : ℕ) (side : Side) → let r = round_to_tick price side in (0 < r) × (r % tick_size r ≡ 0)
unfolding round_to_tick
round_to_tick_valid price buy = ground arith
round_to_tick_valid price sell = ground arith

-- A purchase is rounded up and a sale down, by less than a tick, except that a price below one tick
-- becomes one tick.
pub round_to_tick_bounds :
    (price : ℕ)
    → let up = round_to_tick price buy in
      let down = round_to_tick price sell in
      let tick = tick_size price in
      (price ≤ up)
      × (0 < price → up < price + tick)
      × (price < down + tick)
      × (tick ≤ price → down ≤ price)
      × (price < tick → down ≡ tick)
unfolding round_to_tick
round_to_tick_bounds price = ground arith
