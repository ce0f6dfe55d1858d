-- ===== src/Domain/Enums.antt =====
-- short_trading_bot/domain/enums.py: the enumerations, with the tables that they carry. A Python
-- `StrEnum` compares by its text, and the texts of one enumeration are distinct, so `==` and `is`
-- compare constructors.
use short_trading_bot.Base.{ℕ, Bool, true, false, not, Option, none, some}

pub data Mode : Type 0 where
  backtest paper live : Mode

pub data Resolution : Type 0 where
  tick m1 m3 m5 m10 m15 m30 m60 d1 w1 mo1 : Resolution

-- `Resolution.is_intraday`, with the set `_INTRADAY`
unfoldable pub is_intraday : Resolution → Bool
is_intraday d1 = false
is_intraday w1 = false
is_intraday mo1 = false
is_intraday _ = true

-- `Resolution.bar_seconds`, with the table `_BAR_SECONDS`
unfoldable pub bar_seconds : Resolution → Option ℕ
bar_seconds m1 = some 60
bar_seconds m3 = some 180
bar_seconds m5 = some 300
bar_seconds m10 = some 600
bar_seconds m15 = some 900
bar_seconds m30 = some 1800
bar_seconds m60 = some 3600
bar_seconds _ = none

pub data Market : Type 0 where
  krx nasd nyse amex sehk tkse shaa szaa hase vnse : Market

pub data Currency : Type 0 where
  krw usd hkd jpy cny vnd : Currency

abbrev pub is_krx : Market → Bool
is_krx krx = true
is_krx _ = false

-- `Market.is_overseas`
abbrev pub is_overseas : Market → Bool
is_overseas m = not (is_krx m)

-- `Market.currency`, with the table `_MARKET_CURRENCY`
unfoldable pub currency : Market → Currency
currency krx = krw
currency nasd = usd
currency nyse = usd
currency amex = usd
currency sehk = hkd
currency tkse = jpy
currency shaa = cny
currency szaa = cny
currency hase = vnd
currency vnse = vnd

pub data Side : Type 0 where
  buy sell : Side

abbrev pub is_buy : Side → Bool
is_buy buy = true
is_buy sell = false

pub data PositionState : Type 0 where
  watching holding scaling exiting closed error cancelled : PositionState

pub data OrderState : Type 0 where
  pending_new unknown new partially_filled filled cancelled rejected expired : OrderState

pub data CampaignState : Type 0 where
  scheduled running liquidating settled : CampaignState

pub data ControlState : Type 0 where
  running paused stopped : ControlState

pub PositionState-discrete : Discrete PositionState
PositionState-discrete = hlevel

pub Resolution-discrete : Discrete Resolution
Resolution-discrete = hlevel

unfoldable pub Market-discrete : Discrete Market
Market-discrete = hlevel

unfoldable pub Currency-discrete : Discrete Currency
Currency-discrete = hlevel
