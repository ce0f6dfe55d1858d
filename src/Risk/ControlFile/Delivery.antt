-- ===== src/Risk/ControlFile/Delivery.antt =====
-- Which commands reach the engine.
use short_trading_bot.Base.{ℕ, ◌≤◌, ◌≡◌, refl, Bool, true, false, none, arith, ap, ◌∙◌}
use short_trading_bot.Risk.Control.{ControlSwitch, pause, resume, stop}
use short_trading_bot.Risk.ControlFile.{
  Action, pausing, resuming, stopping, unknown, is_action, read_command, start_seq, World,
  write_command, apply_command, control_round, set_control,
}

-- The number of the command that can be read; 0 when there is none.
abbrev pub file_seq : World → ℕ
file_seq w = start_seq (read_command w.file)

-- The engine has applied no command that the file does not know of.
abbrev pub IsLinked : World → Type 0
IsLinked w = w.applied ≤ file_seq w

-- what a command means for the switch and for the marker
abbrev pub meant : Action → ControlSwitch → ControlSwitch
meant pausing c = pause c
meant resuming c = resume c
meant stopping c = stop none c
meant unknown c = c

abbrev pub marked : Action → Bool → Bool
marked resuming m = false
marked stopping m = true
marked _ m = m

-- In a linked state every command of the dashboard takes effect at the next round of the engine,
-- on the switch and on the marker, and only once: a further round changes nothing.
pub control_round-set_control :
    (a : Action) (w : World)
    → is_action a ≡ true
    → IsLinked w
    → let w' = control_round (set_control a w) in
      (w'.control ≡ meant a w.control)
      × (w'.marker ≡ marked a w.marker)
      × (control_round w' ≡ w')
      × IsLinked w'
unfolding control_round set_control read_command write_command apply_command is_action
control_round-set_control pausing w h l = ground arith
control_round-set_control resuming w h l = ground arith
control_round-set_control stopping w h l = ground arith
control_round-set_control unknown w h l = cc

-- When the file cannot be read any more, its numbers start at 1 again: an engine that has applied a
-- command does not carry out the next command of the dashboard, the emergency stop included.
pub set_control_lost :
    (a : Action) (w : World)
    → is_action a ≡ true
    → read_command w.file ≡ none
    → 1 ≤ w.applied
    → let w' = control_round (set_control a w) in
      (w'.control ≡ w.control) × (w'.applied ≡ w.applied)
unfolding control_round set_control read_command write_command apply_command is_action
set_control_lost pausing w h r l = ground arith
set_control_lost resuming w h r l = ground arith
set_control_lost stopping w h r l = ground arith
set_control_lost unknown w h r l = cc

pub set_control-IsLinked : (a : Action) (w : World) → IsLinked w → IsLinked (set_control a w)
unfolding set_control read_command write_command is_action
set_control-IsLinked pausing w l = ground arith
set_control-IsLinked resuming w l = ground arith
set_control-IsLinked stopping w l = ground arith
set_control-IsLinked unknown w l = l

set_control-keeps_control : (a : Action) (w : World) → (set_control a w).control ≡ w.control
unfolding set_control write_command is_action
set_control-keeps_control pausing w = refl
set_control-keeps_control resuming w = refl
set_control-keeps_control stopping w = refl
set_control-keeps_control unknown w = refl

-- The file keeps the last command only: of two commands that come between two rounds of the engine
-- the first never reaches its switch. An emergency stop that a pause follows stops nothing.
pub set_control_overwrites :
    (a b : Action) (w : World)
    → is_action b ≡ true
    → IsLinked w
    → (control_round (set_control b (set_control a w))).control ≡ meant b w.control
set_control_overwrites a b w h l =
    let (e, _, _, _) =
      control_round-set_control b (set_control a w) h (set_control-IsLinked a w l) in
    e ∙ ap (meant b) (set_control-keeps_control a w)
