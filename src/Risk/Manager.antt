-- ===== src/Risk/Manager.antt =====
-- short_trading_bot/risk/manager.py, limits.py and kill_switch.py: the gate that every intent
-- passes. Amounts are integers in a fixed smallest unit; a percentage is `Decimal(str(x))`, a
-- finite decimal: a natural number over a power of ten.
pub mod Gate
use short_trading_bot.Base.{
  ℕ, Bool, true, false, not, ◌&&◌, Option, none, some, List, map, leb, if◌then◌else◌, keep_if,
  or_else,
}
use short_trading_bot.Base.Int.{ℤ, pos, ◌+ℤ◌, ◌-ℤ◌, ◌*ℤ◌, ltb_ℤ, leb_ℤ}
use short_trading_bot.Domain.Enums.{sell}
use short_trading_bot.Domain.Signal.{Intent, IntentKind, OrdDvsn}
use short_trading_bot.Domain.Position.{Lot, is_open}
use short_trading_bot.Risk.Control.{ControlSwitch, is_paused, is_stopped}

pub record Ratio : Type 0 where
  pub num : ℕ
  pub den : ℕ

pub record RiskLimits : Type 0 where
  pub max_open_positions : Option ℕ
  pub max_order_notional : Option ℤ
  pub max_ticker_exposure : Option ℤ
  pub daily_loss_limit : Option ℤ
  pub daily_loss_pct : Option Ratio
  pub max_drawdown_pct : Option Ratio

pub record RiskSnapshot : Type 0 where
  pub equity : ℤ
  pub open_positions : ℕ
  pub daily_pnl : ℤ
  pub ticker_exposure : ℕ → Option ℤ
  pub peak_equity : Option ℤ

-- the texts of `RiskDecision.reason`
pub data Reason : Type 0 where
  stopped paused daily_loss_limit daily_loss_pct max_drawdown max_open_positions : Reason
  order_notional ticker_exposure : Reason

-- `RiskDecision`
pub data RiskDecision : Type 0 where
  allow : RiskDecision
  block : Reason → RiskDecision

-- `_ENTRY_KINDS`
unfoldable pub is_entry : IntentKind → Bool
is_entry IntentKind.enter = true
is_entry IntentKind.add = true
is_entry _ = false

-- the tests of the single limits; an unset limit is never breached
abbrev pub breaks_daily_limit : Option ℤ → RiskSnapshot → Bool
breaks_daily_limit none s = false
breaks_daily_limit (some limit) s = leb_ℤ s.daily_pnl (pos 0 -ℤ limit)

abbrev pub breaks_daily_pct : Option Ratio → RiskSnapshot → Bool
breaks_daily_pct none s = false
breaks_daily_pct (some r) s =
    ltb_ℤ (pos 0) s.equity && leb_ℤ (s.daily_pnl *ℤ r.den) (pos 0 -ℤ s.equity *ℤ r.num)

abbrev pub breaks_drawdown : Option Ratio → Option ℤ → RiskSnapshot → Bool
breaks_drawdown (some r) (some peak) s = leb_ℤ (s.equity *ℤ r.den) (peak *ℤ r.den -ℤ peak *ℤ r.num)
breaks_drawdown _ _ s = false

abbrev pub breaks_positions : Option ℕ → RiskSnapshot → Bool
breaks_positions none s = false
breaks_positions (some limit) s = leb limit s.open_positions

abbrev pub breaks_notional : Option ℤ → ℤ → Bool
breaks_notional none amount = false
breaks_notional (some limit) amount = ltb_ℤ limit amount

abbrev pub breaks_exposure : Option ℤ → ℕ → ℤ → RiskSnapshot → Bool
breaks_exposure none ticker amount s = false
breaks_exposure (some limit) ticker amount s =
    ltb_ℤ limit (or_else (s.ticker_exposure ticker) (pos 0) +ℤ amount)

-- `RiskManager.check`
unfoldable pub check : RiskLimits → ControlSwitch → IntentKind → ℕ → ℤ → RiskSnapshot → RiskDecision
check limits control kind ticker amount s =
    if not (is_entry kind)
    then allow
    else if is_stopped control.state
    then block stopped
    else if is_paused control.state
    then block paused
    else if breaks_daily_limit limits.daily_loss_limit s
    then block daily_loss_limit
    else if breaks_daily_pct limits.daily_loss_pct s
    then block daily_loss_pct
    else if breaks_drawdown limits.max_drawdown_pct s.peak_equity s
    then block max_drawdown
    else if breaks_positions limits.max_open_positions s
    then block max_open_positions
    else if breaks_notional limits.max_order_notional amount
    then block order_notional
    else if breaks_exposure limits.max_ticker_exposure ticker amount s
    then block ticker_exposure
    else allow

-- the intent that the kill switch makes for a lot
abbrev pub flat_intent : Intent
flat_intent = record {
  kind = IntentKind.exit;
  side = sell;
  qty = none;
  fraction = none;
  ord_dvsn = OrdDvsn.market;
  price = 0;
  stop_price = none;
  reason = "kill_switch";
}

unfoldable pub build_flat_all_intents : List Lot → List (Lot × Intent)
build_flat_all_intents lots =
    map (λ lot. (lot, flat_intent)) (keep_if (λ lot. is_open lot.state) lots)
