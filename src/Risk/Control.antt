-- ===== src/Risk/Control.antt =====
-- short_trading_bot/risk/control.py: the switch that stops and pauses trading. A campaign id is a
-- number.
use short_trading_bot.Base.{ℕ, Bool, true, false, Option, none}
use short_trading_bot.Domain.Enums.{ControlState, running, paused, stopped}

pub record ControlSwitch : Type 0 where
  pub state : ControlState
  pub flat_all_requested : Bool
  pub scope : Option ℕ

-- `ControlSwitch()`
abbrev pub new_switch : ControlSwitch
new_switch = record { state = running; flat_all_requested = false; scope = none }

abbrev pub is_paused : ControlState → Bool
is_paused paused = true
is_paused _ = false

abbrev pub is_stopped : ControlState → Bool
is_stopped stopped = true
is_stopped _ = false

unfoldable pub pause : ControlSwitch → ControlSwitch
pause c = record c { state = paused }

unfoldable pub resume : ControlSwitch → ControlSwitch
resume c = record c { state = running; flat_all_requested = false; scope = none }

unfoldable pub stop : Option ℕ → ControlSwitch → ControlSwitch
stop scope c = record c { state = stopped; flat_all_requested = true; scope = scope }

unfoldable pub clear_flat_all : ControlSwitch → ControlSwitch
clear_flat_all c = record c { flat_all_requested = false }
