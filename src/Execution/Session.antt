-- ===== src/Execution/Session.antt =====
-- The dates of short_trading_bot/execution/order_manager.py: which orders belong to the trading
-- session of now. Seconds of the epoch; a naive `datetime` is one in UTC, so it is the same number.
use short_trading_bot.Base.{
  ℕ, ◌+◌, ◌/◌, Bool, true, false, Option, none, some, ltb, ◌==◌, if◌then◌else◌,
}
use short_trading_bot.Domain.Enums.{is_overseas}
use short_trading_bot.Execution.Store.{MarketName, known, other}

abbrev pub day_seconds : ℕ
day_seconds = 86400

abbrev pub kst_offset : ℕ
kst_offset = 32400

-- `_kst_date`, as the number of the day
unfoldable pub kst_date : ℕ → ℕ
kst_date ts = (ts + kst_offset) / day_seconds

unfoldable pub created_today_kst : ℕ → ℕ → Bool
unfolding kst_date
created_today_kst ts now = kst_date ts == kst_date now

-- `Market(market).is_overseas if market else False`, and False for a text that names no market
abbrev pub overseas_name : Option MarketName → Bool
overseas_name none = false
overseas_name (some other) = false
overseas_name (some (known m)) = is_overseas m

abbrev pub overseas_order_lifetime : ℕ
overseas_order_lifetime = day_seconds

unfoldable pub order_in_session : ℕ → Option MarketName → ℕ → Bool
unfolding created_today_kst
order_in_session ts market now =
    if overseas_name market
    then ltb now (ts + overseas_order_lifetime)
    else created_today_kst ts now

-- `market and market != Market.KRX.value`
abbrev pub elsewhere : Option MarketName → Bool
elsewhere none = false
elsewhere (some other) = true
elsewhere (some (known m)) = is_overseas m
