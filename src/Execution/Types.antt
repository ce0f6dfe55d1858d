-- ===== src/Execution/Types.antt =====
-- short_trading_bot/execution/types.py: what passes between the engine and a broker. Texts that are
-- only compared (ids, order numbers, tickers) are numbers, a `datetime` is its second of the epoch.
use short_trading_bot.Base.{ℕ, ◌*◌, Bool, true, false, ◌||◌, Option, ◌==◌}
use short_trading_bot.Domain.Enums.{Market, Currency, Side, OrderState}
use short_trading_bot.Domain.Signal.{OrdDvsn}

pub record OrderRequest : Type 0 where
  pub client_order_id : ℕ
  pub lot_id : ℕ
  pub ticker : ℕ
  pub market : Market
  pub side : Side
  pub qty : ℕ
  pub price : ℕ
  pub ord_dvsn : OrdDvsn

abbrev pub is_market_code : OrdDvsn → Bool
is_market_code OrdDvsn.market = true
is_market_code OrdDvsn.limit = false

-- `OrderRequest.is_market`
unfoldable pub is_market : OrderRequest → Bool
is_market req = is_market_code req.ord_dvsn || req.price == 0

-- `OrderRequest.notional`
unfoldable pub notional : OrderRequest → ℕ
notional req = req.price * req.qty

-- the texts of `reject_reason`
pub data RejectReason : Type 0 where
  existing_order : OrderState → RejectReason
  broker_error said : ℕ → RejectReason
  no_market_price insufficient_funds : RejectReason

pub record OrderAck : Type 0 where
  pub client_order_id : ℕ
  pub accepted : Bool
  pub broker_order_no : Option ℕ
  pub tr_id : Option ℕ
  pub reject_reason : Option RejectReason

pub data Source : Type 0 where
  ws reconcile paper poll : Source

pub record Fill : Type 0 where
  pub client_order_id : ℕ
  pub qty : ℕ
  pub price : ℕ
  pub fee : ℕ
  pub tax : ℕ
  pub currency : Currency
  pub ts : Option ℕ
  pub source : Source

pub record OrderRecord : Type 0 where
  pub broker_order_no : ℕ
  pub ticker : ℕ
  pub side : Side
  pub qty : ℕ

-- `qty`, `fee` and `tax` are cumulative for the order, and `price` is the cumulative average.
pub record Execution : Type 0 where
  pub exec_id : ℕ
  pub broker_order_no : ℕ
  pub ticker : ℕ
  pub side : Side
  pub qty : ℕ
  pub price : ℕ
  pub fee : ℕ
  pub tax : ℕ
  pub currency : Currency
  pub ts : Option ℕ

pub record BalancePosition : Type 0 where
  pub ticker : ℕ
  pub market : Market
  pub qty : ℕ
  pub avg_price : ℕ
  pub currency : Currency
