-- ===== src/Execution/PollGate.antt =====
-- short_trading_bot/execution/poll_gate.py: when and how often fills are polled. A time is a second
-- of the epoch; delays are counted in a fixed unit, whose products by powers of two are exact for
-- floats as well. `2.0 ** n` raises OverflowError from n = 1024 on, which is `none` here.
pub mod Delays
use short_trading_bot.Base.{
  ℕ, ◌+◌, ◌-◌, ◌*◌, ◌/◌, ◌%◌, ◌^◌, min, Bool, false, not, ◌&&◌, ◌||◌, Option, none, some, List, [],
  ◌∷◌, ltb, leb, ◌==◌, if◌then◌else◌, contains,
}
use short_trading_bot.Execution.Session.{kst_date, kst_offset, day_seconds}

-- The first of January 2026, in days of the epoch.
abbrev pub new_year_2026 : ℕ
new_year_2026 = 20_454

-- `KRX_HOLIDAYS`, by the day of the year 2026 counted from 0
abbrev pub krx_holidays : List ℕ
krx_holidays =
    0 ∷ 46 ∷ 47 ∷ 48 ∷ 60 ∷ 120 ∷ 124 ∷ 144 ∷ 153 ∷ 197 ∷ 228 ∷ 266 ∷ 267 ∷ 277 ∷ 281 ∷ 358 ∷ 364
    ∷ []

unfoldable pub is_holiday : ℕ → Bool
is_holiday day = leb new_year_2026 day && contains (day - new_year_2026) krx_holidays

-- `weekday()` of a day of the epoch, Monday being 0
unfoldable pub weekday : ℕ → ℕ
weekday day = (day + 3) % 7

-- the minute of the day in Korea
unfoldable pub minute_of : ℕ → ℕ
minute_of now = (now + kst_offset) % day_seconds / 60

pub record PollGate : Type 0 where
  pub base_seconds : ℕ
  pub max_backoff_seconds : ℕ
  pub idle_seconds : ℕ
  pub open_minute : ℕ
  pub close_minute : ℕ
  pub failures : ℕ

unfoldable pub in_session : PollGate → ℕ → Bool
in_session gate now =
    if leb 5 (weekday (kst_date now)) || is_holiday (kst_date now)
    then false
    else leb gate.open_minute (minute_of now) && leb (minute_of now) gate.close_minute

-- `record`
unfoldable pub record_result : Bool → PollGate → PollGate
record_result ok gate = record gate { failures = if ok then 0 else gate.failures + 1 }

-- `2.0 ** n`
unfoldable pub float_power : ℕ → Option ℕ
float_power n = if ltb n 1024 then some (2 ^ n) else none

-- `min(base * factor, max)`, unless the factor could not be computed
abbrev capped : PollGate → Option ℕ → Option ℕ
capped gate none = none
capped gate (some factor) = some (min (gate.base_seconds * factor) gate.max_backoff_seconds)

unfoldable pub next_delay : PollGate → ℕ → Option ℕ
next_delay gate now =
    if not (in_session gate now)
    then some gate.idle_seconds
    else if gate.failures == 0
    then some gate.base_seconds
    else capped gate (float_power gate.failures)
