-- ===== src/Execution/Store.antt =====
-- short_trading_bot/persistence/models.py: the rows that the execution layer reads and writes, with
-- the columns that it uses. A commit is the store that an operation returns.
use short_trading_bot.Base.{ℕ, Option, List, find_by, keep_if, sum, map, ◌==◌}
use short_trading_bot.Base.Int.{ℤ}
use short_trading_bot.Domain.Enums.{Market, Side, PositionState, OrderState, Currency, Resolution}
use short_trading_bot.Domain.Signal.{OrdDvsn}
use short_trading_bot.Execution.Types.{Source}

-- The text in `Position.market`: the name of a market, or another text.
pub data MarketName : Type 0 where
  known : Market → MarketName
  other : MarketName

-- `Order`
pub record Order : Type 0 where
  pub order_id : ℕ
  pub lot_id : ℕ
  pub client_order_id : ℕ
  pub broker_order_no : Option ℕ
  pub tr_id : Option ℕ
  pub ord_dvsn : OrdDvsn
  pub side : Side
  pub qty : ℕ
  pub price : ℕ
  pub state : OrderState
  pub created_at : ℕ

-- `Fill`
pub record FillRow : Type 0 where
  pub order_id : ℕ
  pub lot_id : ℕ
  pub qty : ℕ
  pub price : ℕ
  pub fee : ℕ
  pub tax : ℕ
  pub currency : Currency
  pub filled_at : ℕ
  pub source : Source

-- `Position`
pub record PositionRow : Type 0 where
  pub lot_id : ℕ
  pub ticker : ℕ
  pub market : MarketName
  pub currency : Currency
  pub resolution : Resolution
  pub state : PositionState
  pub qty_filled : ℕ
  pub avg_entry_price : ℕ
  pub realized_pnl : ℤ
  pub initial_stop : ℕ
  pub peak_price : ℕ
  pub tp_rungs_taken : ℕ
  pub original_qty : ℕ
  pub closed_at : Option ℕ

pub data EventType : Type 0 where
  order_pending order_unknown order_accepted order_rejected : EventType
  order_cancelled order_expired fill_applied : EventType
  order_unknown_adopted order_unknown_readopted order_unknown_expired reconcile_drift : EventType

-- `AuditLog`, with the one entry of the payload that is read back
pub record AuditLog : Type 0 where
  pub event_type : EventType
  pub lot_id : ℕ
  pub client_order_id : ℕ

-- The tables. `column` is what a column Numeric(24, 8) keeps of an amount.
pub record Store : Type 0 where
  pub orders : List Order
  pub fills : List FillRow
  pub positions : List PositionRow
  pub audit : List AuditLog
  pub column : ℕ → ℕ

abbrev pub order_key : Order → ℕ
order_key o = o.client_order_id

abbrev pub position_key : PositionRow → ℕ
position_key p = p.lot_id

-- `OrderManager._find_order`
abbrev pub find_order : ℕ → List Order → Option Order
find_order = find_by order_key

abbrev pub find_position : ℕ → List PositionRow → Option PositionRow
find_position = find_by position_key

-- the quantities of an order's fill rows
abbrev pub filled_of : ℕ → List FillRow → ℕ
filled_of id fills = sum (map (λ r. r.qty) (keep_if (λ r. r.order_id == id) fills))
