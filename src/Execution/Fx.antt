-- ===== src/Execution/Fx.antt =====
-- short_trading_bot/execution/fx.py: amounts in other currencies, in won. A rate is counted in a
-- fixed unit, `one` of them for the rate 1; an amount times a rate is an amount of won in the
-- product of the units. The won's own rate is `one`.
use short_trading_bot.Base.{ℕ, Bool, true, false, Option, List, [], ◌∷◌, if◌then◌else◌, or_else}
use short_trading_bot.Base.Int.{ℤ, pos, ◌+ℤ◌, ◌*ℤ◌}
use short_trading_bot.Domain.Enums.{Market, currency, Currency, krw, Currency-discrete}

-- `FxRates`
pub record FxRates : Type 0 where
  pub one : ℕ
  pub to_krw : Currency → Option ℕ

unfoldable pub is_krw : Currency → Bool
unfolding Currency-discrete
is_krw c = elim (Currency-discrete c krw) [ yes _ ↦ true | no _ ↦ false ]

-- `FxRates.rate`
unfoldable pub rate : FxRates → Currency → ℕ
unfolding is_krw
rate rates c = if is_krw c then rates.one else or_else (rates.to_krw c) 0

-- `FxManager.to_krw`
unfoldable pub value_krw : FxRates → ℤ → Currency → ℤ
unfolding rate
value_krw rates amount c = amount *ℤ rate rates c

-- `FxManager.total_krw`
unfoldable pub total_krw : FxRates → List (Currency × ℤ) → ℤ
unfolding value_krw
total_krw rates [] = pos 0
total_krw rates ((c, amount) ∷ rest) = value_krw rates amount c +ℤ total_krw rates rest

-- `FxManager.krw_pnl`, with the settlement rate
unfoldable pub krw_pnl : FxRates → ℤ → Currency → ℕ → ℤ
unfolding is_krw
krw_pnl rates pnl c settlement = pnl *ℤ (if is_krw c then rates.one else settlement)

-- `balances.get(currency, Decimal(0))`
unfoldable pub balance_in : Currency → List (Currency × ℤ) → ℤ
unfolding Currency-discrete
balance_in c [] = pos 0
balance_in c ((k, amount) ∷ rest) =
    let more = balance_in c rest in elim (Currency-discrete k c) [ yes _ ↦ amount | no _ ↦ more ]

-- `FxManager.available_for_overseas`
unfoldable pub available_for_overseas : Bool → List (Currency × ℤ) → FxRates → Market → ℤ
unfolding total_krw value_krw balance_in
available_for_overseas integrated_margin balances rates market =
    if integrated_margin
    then total_krw rates balances
    else value_krw rates (balance_in (currency market) balances) (currency market)
