-- ===== src/Examples/Commands.antt =====
-- Commands of the dashboard and orders at the gate, and their theorems at them.
use short_trading_bot.Base.{ℕ, ◌≡◌, refl, ◌↔◌, ◌⊎◌, false, none, some, List, [], ◌∷◌, arith}
use short_trading_bot.Base.Int.{ℤ, pos, negsuc, ◌*ℤ◌, ◌-ℤ◌}
use short_trading_bot.Domain.Enums.{ControlState, running, holding, closed}
use short_trading_bot.Domain.Signal.{IntentKind}
use short_trading_bot.Domain.Position.{Lot}
use short_trading_bot.Risk.Control.{new_switch, pause}
use short_trading_bot.Risk.Manager.{
  RiskLimits, RiskSnapshot, check, allow, block, is_entry, daily_loss_pct,
}
use short_trading_bot.Risk.Manager.Gate.{Fits, check_iff}
use short_trading_bot.Risk.ControlFile.{
  World, unreadable, command, pausing, resuming, stopping, control_round, set_control, read_command,
  is_action,
}
use short_trading_bot.Risk.ControlFile.Delivery.{set_control_lost, set_control_overwrites}
use short_trading_bot.Examples.Lots.{fresh}

-- At most five positions, and a daily loss of at most two per cent.
abbrev limits : RiskLimits
limits = record {
  max_open_positions = some 5;
  max_order_notional = none;
  max_ticker_exposure = none;
  daily_loss_limit = none;
  daily_loss_pct = some (record { num = 2; den = 100 });
  max_drawdown_pct = none;
}

abbrev snapshot : ℤ → RiskSnapshot
snapshot pnl = record {
  equity = pos 1000;
  open_positions = 4;
  daily_pnl = pnl;
  ticker_exposure = λ _. none;
  peak_equity = none;
}

check_iff_example :
    (check limits new_switch IntentKind.enter 5930 (pos 100) (snapshot (negsuc 18)) ≡ allow) ↔ (
      (is_entry IntentKind.enter ≡ false)
      ⊎ ((◌≡◌ {A = ControlState} running running)
          × Fits limits 5930 (pos 100) (snapshot (negsuc 18))))
check_iff_example =
    check_iff limits new_switch IntentKind.enter 5930 (pos 100) (snapshot (negsuc 18))

-- A loss of 20 out of 1000 blocks an entry, one of 19 does not.
blocked :
    check limits new_switch IntentKind.enter 5930 (pos 100) (snapshot (negsuc 19))
    ≡ block daily_loss_pct
unfolding check is_entry ◌*ℤ◌ ◌-ℤ◌
blocked = refl

passed : check limits new_switch IntentKind.enter 5930 (pos 100) (snapshot (negsuc 18)) ≡ allow
unfolding check is_entry ◌*ℤ◌ ◌-ℤ◌
passed = refl

abbrev lots : List Lot
lots = record fresh { state = holding } ∷ record fresh { state = closed } ∷ []

-- an engine that has applied the third command
abbrev engine : World
engine = record { file = command 3 resuming; marker = false; control = new_switch; applied = 3 }

set_control_overwrites_example :
    (control_round (set_control pausing (set_control stopping engine))).control ≡ pause new_switch
unfolding is_action read_command
set_control_overwrites_example = set_control_overwrites stopping pausing engine refl (omega arith)

set_control_lost_example :
    let w' = control_round (set_control stopping (record engine { file = unreadable })) in
    (w'.control ≡ new_switch) × (◌≡◌ {A = ℕ} w'.applied 3)
unfolding is_action read_command
set_control_lost_example =
    set_control_lost stopping (record engine { file = unreadable }) refl refl (omega arith)
