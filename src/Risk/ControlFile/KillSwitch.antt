-- ===== src/Risk/ControlFile/KillSwitch.antt =====
-- The emergency stop, whatever the two processes do after it.
use short_trading_bot.Base.{Bool, ℕ, ◌<◌, ◌≡◌, ◌⊎◌, true, List, [], ◌∷◌}
use short_trading_bot.Domain.Enums.{stopped}
use short_trading_bot.Risk.ControlFile.{
  Action, pausing, resuming, stopping, command, World, control_round, start_engine, set_control,
  engine_sold, end_engine,
}

-- What can happen to the two processes, at any time and in any order; a `restart` follows a crash at
-- any point as well.
pub data Step : Type 0 where
  set : Action → Step
  round restart : Step
  sold left : Bool → Step

unfoldable pub step : Step → World → World
step (set a) w = set_control a w
step round w = control_round w
step restart w = start_engine w
step (sold is_flat) w = engine_sold is_flat w
step (left is_flat) w = end_engine is_flat w

unfoldable pub steps : List Step → World → World
steps [] w = w
steps (s ∷ rest) w = steps rest (step s w)

-- no command but the stop, and no end of the engine with everything sold
abbrev pub IsQuiet : Step → Type 0
IsQuiet (set pausing) = ⊥
IsQuiet (set resuming) = ⊥
IsQuiet (left true) = ⊥
IsQuiet _ = Unit

-- The stop is the last command, the marker is there, and the engine is stopped or is going to read
-- the stop.
abbrev pub IsHalting : ℕ → World → Type 0
IsHalting seq w =
    (w.marker ≡ true)
    × (w.file ≡ command seq stopping)
    × ((w.control.state ≡ stopped) ⊎ (w.applied < seq))
