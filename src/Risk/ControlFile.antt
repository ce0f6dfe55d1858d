-- ===== src/Risk/ControlFile.antt =====
-- short_trading_bot/risk/control_file.py, the handler `set_control` of api/routes/control.py and the
-- control loop of app/cli.py: how a command of the dashboard reaches the engine, which is another
-- process. What the two share are two files: the last command, and the marker of the kill switch.
pub mod Delivery
pub mod KillSwitch
use short_trading_bot.Base.{◌&&◌, ℕ, ◌+◌, Bool, true, false, Option, none, some, ltb, if◌then◌else◌}
use short_trading_bot.Risk.Control.{
  ControlSwitch, new_switch, pause, resume, stop, clear_flat_all, is_stopped,
}

-- the texts of an action; `_ACTIONS` are the first three
pub data Action : Type 0 where
  pausing resuming stopping unknown : Action

unfoldable pub is_action : Action → Bool
is_action unknown = false
is_action _ = true

-- what the command file holds: nothing is there, it cannot be read, or a command
pub data CommandFile : Type 0 where
  missing unreadable : CommandFile
  command : ℕ → Action → CommandFile

unfoldable pub read_command : CommandFile → Option (ℕ × Action)
read_command missing = none
read_command unreadable = none
read_command (command seq action) = some (seq, action)

-- `(prev[0] if prev is not None else 0) + 1`
abbrev pub next_seq : Option (ℕ × Action) → ℕ
next_seq none = 0 + 1
next_seq (some (seq, _)) = seq + 1

-- The files, and the engine: its switch and the number of the last command that it has applied.
pub record World : Type 0 where
  pub file : CommandFile
  pub marker : Bool
  pub control : ControlSwitch
  pub applied : ℕ

-- `write_command`; `none` is the ValueError for an action that does not exist
unfoldable pub write_command : Action → World → Option (ℕ × World)
unfolding read_command
write_command action w =
    if is_action action
    then some (
      next_seq (read_command w.file),
      record w { file = command (next_seq (read_command w.file)) action },
    )
    else none

unfoldable pub mark_kill_switch : World → World
mark_kill_switch w = record w { marker = true }

unfoldable pub kill_switch_active : World → Bool
kill_switch_active w = w.marker

unfoldable pub apply_command : Action → World → World
unfolding mark_kill_switch
apply_command pausing w = record w { control = pause w.control }
apply_command resuming w = record (record w { control = resume w.control }) { marker = false }
apply_command stopping w =
    let marked = mark_kill_switch w in record marked { control = stop none marked.control }
apply_command unknown w = w

-- one round of `_control_loop`, from the command that it has read
abbrev pub take_command : Option (ℕ × Action) → World → World
take_command none w = w
take_command (some (seq, action)) w =
    if ltb w.applied seq then apply_command action (record w { applied = seq }) else w

unfoldable pub control_round : World → World
unfolding read_command apply_command
control_round w = take_command (read_command w.file) w

-- the number of the command that is there when the loop starts
abbrev pub start_seq : Option (ℕ × Action) → ℕ
start_seq none = 0
start_seq (some (seq, _)) = seq

-- the start of the engine: `_run`, and the first lines of `_control_loop`
unfoldable pub start_engine : World → World
unfolding read_command kill_switch_active
start_engine w = record w {
  control = if kill_switch_active w then stop none new_switch else new_switch;
  applied = start_seq (read_command w.file);
}

-- what `write_command` leaves behind
abbrev pub written : World → Option (ℕ × World) → World
written w none = w
written w (some (_, w')) = w'

-- `set_control`, for an unscoped request of one of the three actions
unfoldable pub set_control : Action → World → World
unfolding write_command mark_kill_switch
set_control pausing w = written w (write_command pausing w)
set_control stopping w =
    let marked = mark_kill_switch w in written marked (write_command stopping marked)
set_control resuming w = record (written w (write_command resuming w)) { marker = false }
set_control unknown w = w

-- what `process` of app/service.py does about the kill switch, once it has sent the sales that are
-- requested, with whether nothing is open then
unfoldable pub engine_sold : Bool → World → World
engine_sold is_flat w =
    if w.control.flat_all_requested && is_flat
    then record w { control = clear_flat_all w.control }
    else w

-- the end of `serve` in app/cli.py, with whether nothing is open then: an engine that ends because it
-- is stopped and has sold everything takes the marker away
unfoldable pub end_engine : Bool → World → World
end_engine is_flat w =
    if is_stopped w.control.state && is_flat then record w { marker = false } else w
