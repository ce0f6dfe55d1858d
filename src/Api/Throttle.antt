-- ===== src/Api/Throttle.antt =====
-- short_trading_bot/api/throttle.py: the limit on failed logins of a client. Times are whole ticks of
-- the monotonic clock.
pub mod Window
use short_trading_bot.Base.{
  ℕ, ◌+◌, Bool, List, [], ◌∷◌, ◌++◌, ltb, leb, if◌then◌else◌, length, or_else, get_at, put, pop,
}

-- the loop of `_recent` over the failures of a client, oldest first
unfoldable pub drop_old : ℕ → ℕ → List ℕ → List ℕ
drop_old window now [] = []
drop_old window now (t ∷ times) =
    let rest = drop_old window now times in if ltb (t + window) now then rest else t ∷ times

-- `_fails`
abbrev pub Failures : Type 0
Failures = List (ℕ × List ℕ)

abbrev pub failures_at : ℕ → Failures → List ℕ
failures_at client fails = or_else (get_at client fails) []

-- `_recent`
unfoldable pub recent : ℕ → ℕ → ℕ → Failures → List ℕ × Failures
unfolding drop_old
recent window client now fails =
    let times = drop_old window now (failures_at client fails) in (times, put client times fails)

unfoldable pub blocked : ℕ → ℕ → ℕ → ℕ → Failures → Bool × Failures
unfolding recent
blocked most window client now fails =
    let (times, fails') = recent window client now fails in (leb most (length times), fails')

unfoldable pub record_failure : ℕ → ℕ → ℕ → Failures → Failures
unfolding recent
record_failure window client now fails =
    let (times, fails') = recent window client now fails in put client (times ++ now ∷ []) fails'

unfoldable pub reset : ℕ → Failures → Failures
reset client fails = pop client fails
