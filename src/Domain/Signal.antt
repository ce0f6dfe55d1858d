-- ===== src/Domain/Signal.antt =====
-- short_trading_bot/domain/signal.py: what a strategy wants to do. A float stands as a pair of a
-- numerator and a denominator; the KIS order codes "00" and "01" are the two order kinds.
use Prim.Native.String.{String}
use short_trading_bot.Base.{ℕ, Bool, true, false, Option}
use short_trading_bot.Domain.Enums.{Side}

pub data IntentKind : Type 0 where
  enter add trim exit hold : IntentKind

pub data OrdDvsn : Type 0 where
  limit market : OrdDvsn

pub record Intent : Type 0 where
  pub kind : IntentKind
  pub side : Side
  pub qty : Option ℕ
  pub fraction : Option (ℕ × ℕ)
  pub ord_dvsn : OrdDvsn
  pub price : ℕ
  pub stop_price : Option ℕ
  pub reason : String

-- `Intent.is_actionable`
unfoldable pub is_actionable : IntentKind → Bool
is_actionable IntentKind.hold = false
is_actionable _ = true
