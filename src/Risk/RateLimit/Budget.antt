-- ===== src/Risk/RateLimit/Budget.antt =====
-- How much a bucket can grant.
use short_trading_bot.Base.{ℕ, ◌+◌, ◌-◌, ◌*◌, ◌≤◌, ◌≡◌, sym, List, [], ◌∷◌, if◌then◌else◌, arith}
use short_trading_bot.Risk.RateLimit.{TokenBucket, refill, try_acquire}

-- A run of requests, each with its reading of the clock and its number of tokens: what is granted
-- altogether, and the bucket after it.
unfoldable pub run : List (ℕ × ℕ) → TokenBucket → ℕ × TokenBucket
run [] b = (0, b)
run ((now, n) ∷ rest) b =
    let after = try_acquire n now b in
    let (granted, b') = run rest after.1 in ((if after.0 then n else 0) + granted, b')

refill_lem :
    (now : ℕ) (b : TokenBucket)
    → b.tokens ≤ b.capacity
    → let b' = refill now b in
      (b'.tokens ≤ b'.capacity)
      × (b.last ≤ b'.last)
      × (b'.tokens ≤ b.tokens + (b'.last - b.last) * b.rate)
      × (b'.rate ≡ b.rate)
      × (b'.capacity ≡ b.capacity)
unfolding refill
refill_lem now b h = ground arith

try_acquire_lem :
    (n now : ℕ) (b : TokenBucket)
    → b.tokens ≤ b.capacity
    → let after = try_acquire n now b in
      let b' = after.1 in
      (b'.tokens ≤ b'.capacity)
      × (b.last ≤ b'.last)
      × ((if after.0 then n else 0) + b'.tokens ≤ b.tokens + (b'.last - b.last) * b.rate)
      × (b'.rate ≡ b.rate)
      × (b'.capacity ≡ b.capacity)
unfolding try_acquire
try_acquire_lem n now b h = let (a, c, d, e, f) = refill_lem now b h in ground arith

inflow_adds : (t t' t'' r : ℕ) → t ≤ t' → t' ≤ t'' → (t' - t) * r + (t'' - t') * r ≡ (t'' - t) * r
inflow_adds t t' t'' r h h' = grind arith

use_rate : (t u m : ℕ) {r r' : ℕ} → r' ≡ r → t ≤ u + m * r' → t ≤ u + m * r
use_rate t u m e h = rw (sym e) h

-- Whatever the readings of the clock are, a run of requests is granted no more than the tokens that
-- the bucket had and what flowed in from its last refill to the last one of the run, and the bucket
-- never overflows.
pub run_budget :
    (requests : List (ℕ × ℕ)) (b : TokenBucket)
    → b.tokens ≤ b.capacity
    → let (granted, b') = run requests b in
      (b'.tokens ≤ b'.capacity)
      × (b.last ≤ b'.last)
      × (granted + b'.tokens ≤ b.tokens + (b'.last - b.last) * b.rate)
unfolding run
run_budget [] b h = ground arith
run_budget ((now, n) ∷ rest) b h =
    let (a, c, d, e, f) = try_acquire_lem n now b h in
    let (a', c', d') = run_budget rest (try_acquire n now b).1 a in
    let b' = (try_acquire n now b).1 in
    omega (arith, inflow_adds b.last b'.last (run rest b').1.last b.rate c c', use_rate _ _ _ e d')
