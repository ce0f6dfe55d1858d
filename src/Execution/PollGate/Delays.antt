-- ===== src/Execution/PollGate/Delays.antt =====
-- The waiting times, and where they fail.
use native.Mathlib.Nat.{pow-suc}
use short_trading_bot.Base.{
  ℕ, zero, suc, ◌+◌, ◌*◌, ◌^◌, ◌≤◌, ◌<◌, min, ◌≡◌, refl, true, false, none, some, arith, ◌∙◌, ◌↔◌,
  ◌⊎◌, inl, inr,
}
use short_trading_bot.Execution.PollGate.{
  PollGate, in_session, record_result, float_power, next_delay,
}

power_pos : (n : ℕ) → 1 ≤ 2 ^ n
power_pos zero = omega arith
power_pos (suc n) = rw pow-suc (omega (arith, power_pos n))

-- the gate after a run of polls that fail
unfoldable pub fail_times : ℕ → PollGate → PollGate
fail_times zero gate = gate
fail_times (suc n) gate = fail_times n (record_result false gate)

fail_times_lem :
    (n : ℕ) (gate : PollGate) → fail_times n gate ≡ record gate { failures = gate.failures + n }
unfolding fail_times record_result
fail_times_lem zero gate = ground arith
fail_times_lem (suc n) gate = ground (arith, fail_times_lem n (record_result false gate))

le_power : (b n : ℕ) → b ≤ b * 2 ^ n
le_power b n = le_times b (2 ^ n) (power_pos n)
  where
    le_times : (b p : ℕ) → 1 ≤ p → b ≤ b * p
    le_times b p h = grind arith

power_grows : (b n : ℕ) → b * 2 ^ n ≤ b * 2 ^ suc n
power_grows b n = rw pow-suc (omega arith)

-- a wait that has been doubled n times
abbrev waits : PollGate → ℕ → ℕ
waits gate zero = gate.base_seconds
waits gate (suc n) = min (gate.base_seconds * 2 ^ suc n) gate.max_backoff_seconds

next_delay-waits :
    (gate : PollGate) (now : ℕ) (n : ℕ)
    → gate.failures ≡ n
    → in_session gate now ≡ true
    → n < 1024
    → next_delay gate now ≡ some (waits gate n)
unfolding next_delay float_power
next_delay-waits gate now zero e s h = ground arith
next_delay-waits gate now (suc n) e s h = ground arith

waits_bounds :
    (gate : PollGate) (n : ℕ)
    → gate.base_seconds ≤ gate.max_backoff_seconds
    → (gate.base_seconds ≤ waits gate n)
      × (waits gate n ≤ waits gate (suc n))
      × (waits gate (suc n) ≤ gate.max_backoff_seconds)
waits_bounds gate zero h = omega (arith, le_power gate.base_seconds 1)
waits_bounds gate (suc n) h =
    omega (arith, le_power gate.base_seconds (suc n), power_grows gate.base_seconds (suc n))

-- Outside the session the gate idles; inside it, after a success it waits the base time, and while
-- fewer than 1024 polls in a row have failed it waits at least the base time and at most the cap, and
-- no less than after one failure fewer.
pub next_delay_bounds :
    (gate : PollGate) (now : ℕ)
    → gate.base_seconds ≤ gate.max_backoff_seconds
    → (in_session gate now ≡ false → next_delay gate now ≡ some gate.idle_seconds)
      × (in_session gate now ≡ true
          → next_delay (record_result true gate) now ≡ some gate.base_seconds)
      × (in_session gate now ≡ true
          → gate.failures + 1 < 1024
          → (d d' : ℕ) × (next_delay gate now ≡ some d)
            × (next_delay (record_result false gate) now ≡ some d')
            × (gate.base_seconds ≤ d)
            × (d ≤ d')
            × (d' ≤ gate.max_backoff_seconds))
unfolding next_delay record_result in_session
next_delay_bounds gate now h = (
  λ s. ground arith,
  λ s. ground arith,
  λ s f.
      let (low, up, high) = waits_bounds gate gate.failures h in
      (
        waits gate gate.failures,
        waits gate (suc gate.failures),
        next_delay-waits gate now gate.failures refl s (omega arith),
        next_delay-waits (record_result false gate) now (suc gate.failures) (omega arith) s
            (omega arith),
        low,
        up,
        high,
      ),
)

waits_within :
    (gate : PollGate) (n : ℕ)
    → gate.base_seconds ≤ gate.max_backoff_seconds
    → (gate.base_seconds ≤ waits gate n) × (waits gate n ≤ gate.max_backoff_seconds)
waits_within gate zero h = (omega arith, h)
waits_within gate (suc n) h = (omega (arith, le_power gate.base_seconds (suc n)), omega arith)

failed_since :
    (n : ℕ) (gate : PollGate)
    → fail_times n (record_result true gate) ≡ record gate { failures = n }
unfolding record_result
failed_since n gate = fail_times_lem n (record_result true gate) ∙ ground arith

no_wait :
    (n : ℕ) (gate : PollGate) (now : ℕ)
    → in_session gate now ≡ true
    → 1024 ≤ n
    → next_delay (record gate { failures = n }) now ≡ none
unfolding next_delay in_session float_power
no_wait n gate now s h = ground arith

-- After a success and a run of failures, at a time in a session: the next poll gets no waiting time
-- exactly from the 1024th failure in a row on, where the power overflows. Before that the time is at
-- least the base time and at most the cap. The base time is no more than the cap.
pub next_delay_overflow :
    (n : ℕ) (gate : PollGate) (now : ℕ)
    → gate.base_seconds ≤ gate.max_backoff_seconds
    → in_session gate now ≡ true
    → let after = fail_times n (record_result true gate) in
      ((next_delay after now ≡ none) ↔ (1024 ≤ n))
      × ((d : ℕ)
          → next_delay after now ≡ some d
          → (gate.base_seconds ≤ d) × (d ≤ gate.max_backoff_seconds))
unfolding in_session
next_delay_overflow n gate now h s = elim (small_or_large n) [
  | inl small ↦
      let wait = next_delay-waits (record gate { failures = n }) now n refl s small in
      let (low, high) = waits_within gate n h in
      rw (failed_since n gate, wait)
        ((λ e. cc, λ l. absurd (omega (arith, small, l))), λ d e. grind arith)
  | inr large ↦
      rw (failed_since n gate, no_wait n gate now s large) ((λ e. large, λ l. refl), λ d e. cc)
]
  where
    small_or_large : (n : ℕ) → (n < 1024) ⊎ (1024 ≤ n)
    small_or_large n = ground arith
