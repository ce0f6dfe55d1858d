-- ===== src/Execution/Routing.antt =====
-- short_trading_bot/execution/broker/routing.py: one broker for the two legs, and what becomes of a
-- leg abroad that fails. What a leg answers is an argument: `none` is an exception. The tables of
-- cash are functions of the currency.
pub mod Reads
use short_trading_bot.Base.{
  ℕ, ◌+◌, ◌-◌, Bool, true, false, not, ◌||◌, Option, none, some, List, [], ◌++◌, ltb, leb,
  if◌then◌else◌,
}
use short_trading_bot.Base.Int.{ℤ, ◌+ℤ◌}
use short_trading_bot.Domain.Enums.{Market, is_overseas, Currency}
use short_trading_bot.Execution.Types.{OrderAck, Execution, OrderRecord, BalancePosition}

-- `_OVERSEAS_FAIL_LIMIT`
abbrev pub fail_limit : ℕ
fail_limit = 3

pub record Router : Type 0 where
  pub overseas_fail : ℕ
  pub executions_complete : Bool

-- the leg that `_for` chooses
pub data Leg : Type 0 where
  domestic overseas : Leg

-- `_for`, with whether a leg abroad is configured; `none` is the ValueError
unfoldable pub leg_for : Bool → Market → Option Leg
leg_for configured market =
    if not (is_overseas market) then some domestic else if configured then some overseas else none

module _ {ℓ} {A : Type ℓ} where
  -- the two ends of `fetch`
  abbrev pub fetched : Option A → A → Router → A × Router
  fetched none default r = (default, record r { overseas_fail = r.overseas_fail + 1 })
  fetched (some a) default r = (a, record r { overseas_fail = 0 })

  -- `_overseas_call`; a leg that rests is not asked
  unfoldable pub overseas_call : Option A → A → Router → A × Router
  overseas_call answer default r =
      if leb fail_limit r.overseas_fail then (default, r) else fetched answer default r

-- `_overseas_read`, unless there is no leg abroad
unfoldable pub overseas_read {ℓ} :
    {A : Type ℓ} → Option (Option (List A)) → Router → List A × Router
unfolding overseas_call
overseas_read none r = ([], r)
overseas_read (some answer) r = overseas_call answer [] r

unfoldable pub resume_overseas_reads : Router → Router
resume_overseas_reads r =
    if leb fail_limit r.overseas_fail then record r { overseas_fail = fail_limit - 1 } else r

-- what `submit_order` does to the counter before it passes the request on
unfoldable pub note_submit : Market → Router → Router
note_submit market r = if is_overseas market then record r { overseas_fail = 0 } else r

-- `get_open_orders` and `get_daily_orders`: the lists of the two legs
unfoldable pub get_daily_orders :
    List OrderRecord → Option (Option (List OrderRecord)) → Router → List OrderRecord × Router
unfolding overseas_read
get_daily_orders home abroad r = let (more, r') = overseas_read abroad r in (home ++ more, r')

unfoldable pub get_open_orders :
    List OrderAck → Option (Option (List OrderAck)) → Router → List OrderAck × Router
unfolding overseas_read
get_open_orders home abroad r = let (more, r') = overseas_read abroad r in (home ++ more, r')

-- `self._overseas_fail > before or self._overseas_fail >= _OVERSEAS_FAIL_LIMIT`
abbrev pub mark_complete : Bool → ℕ → Router → Router
mark_complete configured before r =
    if configured
    then record r {
      executions_complete = not (ltb before r.overseas_fail || leb fail_limit r.overseas_fail);
    }
    else record r { executions_complete = true }

abbrev pub is_configured {ℓ} : {A : Type ℓ} → Option A → Bool
is_configured none = false
is_configured (some _) = true

unfoldable pub get_executions :
    List Execution → Option (Option (List Execution)) → Router → List Execution × Router
unfolding overseas_read
get_executions home abroad r =
    let (more, r') = overseas_read abroad r in
    (home ++ more, mark_complete (is_configured abroad) r.overseas_fail r')

pub record Balance : Type 0 where
  pub cash : Currency → ℤ
  pub positions : List BalancePosition

-- `cash[currency] = cash.get(currency, 0) + amount` for each entry, and the positions of both
abbrev pub merged : Balance → Option Balance → Balance
merged home none = home
merged home (some other) = record {
  cash = λ c. home.cash c +ℤ other.cash c;
  positions = home.positions ++ other.positions;
}

abbrev pub wrapped : Option Balance → Option (Option Balance)
wrapped none = none
wrapped (some b) = some (some b)

unfoldable pub get_balance : Balance → Option (Option Balance) → Router → Balance × Router
unfolding overseas_call
get_balance home none r = (home, r)
get_balance home (some answer) r =
    let (other, r') = overseas_call (wrapped answer) none r in (merged home other, r')
