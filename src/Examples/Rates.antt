-- ===== src/Examples/Rates.antt =====
-- Prices on the tick, waiting times and a bucket of tokens, and their theorems at them.
use short_trading_bot.Base.{
  ℕ, ◌+◌, ◌-◌, ◌*◌, ◌%◌, ◌≤◌, ◌<◌, ◌≡◌, refl, true, some, none, List, [], ◌∷◌, arith, ◌↔◌,
}
use short_trading_bot.Domain.Enums.{buy}
use short_trading_bot.Execution.TickSize.{won, tick_size, round_to_tick}
use short_trading_bot.Execution.TickSize.Rounding.{round_to_tick_valid}
use short_trading_bot.Execution.PollGate.{
  PollGate, in_session, record_result, next_delay, weekday, is_holiday, minute_of, float_power,
}
use short_trading_bot.Execution.Session.{kst_date}
use short_trading_bot.Execution.PollGate.Delays.{fail_times, next_delay_overflow}
use short_trading_bot.Risk.RateLimit.{new_bucket, try_acquire, refill}
use short_trading_bot.Risk.RateLimit.Budget.{run, run_budget}

-- 4998 won, bought: one tick of five won up, into the next band
abbrev dear : ℕ
dear = 4998 * won

round_to_tick_valid_example :
    (0 < round_to_tick dear buy) × (round_to_tick dear buy % tick_size (round_to_tick dear buy) ≡ 0)
round_to_tick_valid_example = round_to_tick_valid dear buy

rounded_up : round_to_tick dear buy ≡ 5000 * won
unfolding round_to_tick
rounded_up = refl

-- the default settings, in seconds
abbrev gate : ℕ → PollGate
gate n = record {
  base_seconds = 2;
  max_backoff_seconds = 60;
  idle_seconds = 60;
  open_minute = 510;
  close_minute = 990;
  failures = n;
}

-- a Monday in June 2025, 10:06 in Korea
abbrev monday_morning : ℕ
monday_morning = 1_750_036_000

open_now : in_session (gate 3) monday_morning ≡ true
unfolding in_session weekday kst_date is_holiday minute_of
open_now = refl

fourth_failure : next_delay (gate 4) monday_morning ≡ some 32
unfolding next_delay in_session weekday kst_date is_holiday minute_of float_power
fourth_failure = refl

next_delay_overflow_example :
    let after = fail_times 1024 (record_result true (gate 0)) in
    ((next_delay after monday_morning ≡ none) ↔ (1024 ≤ 1024))
    × ((d : ℕ)
        → next_delay after monday_morning ≡ some d
        → ((gate 0).base_seconds ≤ d) × (d ≤ (gate 0).max_backoff_seconds))
unfolding in_session weekday kst_date is_holiday minute_of
next_delay_overflow_example = next_delay_overflow 1024 (gate 0) monday_morning (omega arith) refl

-- 15 requests a second, in thousandths of a token and of a second
abbrev requests : List (ℕ × ℕ)
requests = (100, 1000) ∷ (90, 1000) ∷ (200, 14_000) ∷ []

run_budget_example :
    let bucket = new_bucket 15 15_000 50 in
    let (granted, b') = run requests bucket in
    (b'.tokens ≤ b'.capacity)
    × (50 ≤ b'.last)
    × (granted + b'.tokens ≤ 15_000 + (b'.last - 50) * 15)
unfolding new_bucket
run_budget_example = run_budget requests (new_bucket 15 15_000 50) (omega arith)

granted_lem : (run requests (new_bucket 15 15_000 50)).0 ≡ 16_000
unfolding run new_bucket try_acquire refill
granted_lem = refl
