-- ===== src/Risk/RateLimit.antt =====
-- short_trading_bot/risk/rate_limit.py: a bucket of tokens for requests. Tokens are counted in a
-- fixed small unit and the clock in ticks, `rate` units flowing in with each tick, so the products
-- are exact; the source computes them in floats. The clock is a reading that each call is given.
pub mod Budget
use short_trading_bot.Base.{ℕ, ◌+◌, ◌-◌, ◌*◌, min, Bool, true, false, ltb, leb, if◌then◌else◌}

pub record TokenBucket : Type 0 where
  pub rate : ℕ
  pub capacity : ℕ
  pub tokens : ℕ
  pub last : ℕ

-- `TokenBucket(rate, capacity)` at a reading of the clock
unfoldable pub new_bucket : ℕ → ℕ → ℕ → TokenBucket
new_bucket rate capacity now = record {
  rate = rate;
  capacity = capacity;
  tokens = capacity;
  last = now;
}

-- `_refill`
unfoldable pub refill : ℕ → TokenBucket → TokenBucket
refill now b =
    if ltb b.last now
    then record b { tokens = min b.capacity (b.tokens + (now - b.last) * b.rate); last = now }
    else b

-- the test of `try_acquire` and its deduction, after the refill
abbrev pub take_tokens : ℕ → TokenBucket → Bool × TokenBucket
take_tokens n b = if leb n b.tokens then (true, record b { tokens = b.tokens - n }) else (false, b)

unfoldable pub try_acquire : ℕ → ℕ → TokenBucket → Bool × TokenBucket
try_acquire n now b = take_tokens n (refill now b)

-- `available`, which refills as well
unfoldable pub available : ℕ → TokenBucket → ℕ × TokenBucket
unfolding refill
available now b = let full = refill now b in (full.tokens, full)
