-- ===== src/Execution/Paper/Desk.antt =====
-- short_trading_bot/execution/broker/paper.py: orders, cancellations and prices.
use short_trading_bot.Base.{
  put, pop, get_at, ℕ, ◌+◌, Bool, true, false, not, ◌&&◌, ◌||◌, Option, none, some, List, [], ◌∷◌,
  ◌++◌, map, sum, leb, ◌==◌, if◌then◌else◌, is_some, keep_if,
}
use short_trading_bot.Base.Int.{ℤ, pos, ◌-ℤ◌, ltb_ℤ}
use short_trading_bot.Domain.Enums.{currency, Currency, is_buy}
use short_trading_bot.Execution.Types.{
  OrderRequest, is_market, OrderAck, RejectReason, no_market_price, insufficient_funds, Fill,
}
use short_trading_bot.Execution.Paper.State.{Holding, Paper, same_currency, set_price}
use short_trading_bot.Execution.Paper.Fills.{chunk, fill_all, fill_price, estimated_cost}

-- `_crosses`
abbrev pub crosses : OrderRequest → Option ℕ → Bool
crosses req none = false
crosses req (some ref) = if is_buy req.side then leb ref req.price else leb req.price ref

-- the text of an order number, `PAPER-` and the number, is the number
abbrev pub paper_accepted : OrderRequest → ℕ → OrderAck
paper_accepted req number = record {
  client_order_id = req.client_order_id;
  accepted = true;
  broker_order_no = some number;
  tr_id = some 0;
  reject_reason = none;
}

abbrev pub paper_refused : OrderRequest → RejectReason → OrderAck
paper_refused req reason = record {
  client_order_id = req.client_order_id;
  accepted = false;
  broker_order_no = none;
  tr_id = none;
  reject_reason = some reason;
}

-- The reserved amounts whose orders are in a currency; every reserved amount has a waiting order.
abbrev pub in_currency : Currency → Option OrderRequest → Bool
in_currency ccy none = false
in_currency ccy (some req) = same_currency (currency req.market) ccy

unfoldable pub reserved_in : Currency → Paper → ℕ
unfolding get_at
reserved_in ccy b =
    sum (map (λ r. r.1) (keep_if (λ r. in_currency ccy (get_at r.0 b.resting)) b.reserved))

-- `_available_cash`
unfoldable pub available_cash : Currency → Paper → ℤ
unfolding reserved_in
available_cash ccy b = b.cash ccy -ℤ pos (reserved_in ccy b)

module _ (share : ℕ) (part portion : ℕ → ℕ → ℕ) (quot : ℤ → ℤ → ℤ) (now : ℕ) where
  -- a limit order that waits, and the amount that it reserves
  unfoldable pub rest_order : OrderRequest → ℕ → Paper → Paper
  unfolding estimated_cost put
  rest_order req number b = record b {
    resting = put number req b.resting;
    reserved =
        if is_buy req.side
        then put number (estimated_cost portion b.config req.price req.qty) b.reserved
        else b.reserved;
  }

  -- `submit_order` from the order number on
  unfoldable pub place : OrderRequest → Option ℕ → Paper → OrderAck × List Fill × Paper
  unfolding fill_all chunk fill_price rest_order
  place req ref b =
      let b' = record b { seq = b.seq + 1 } in
      if b.config.resting_limits && not (is_market req) && not (crosses req ref)
      then (paper_accepted req b'.seq, [], rest_order req b'.seq b')
      else let (fills, b'') =
          fill_all portion quot now req (fill_price portion b.config req ref)
            (chunk share part b.config.max_fill_chunks req.qty) (currency req.market) b'.seq b' in
        (paper_accepted req b'.seq, fills, b'')

  -- `submit_order`
  unfoldable pub submit_order : OrderRequest → Paper → OrderAck × List Fill × Paper
  unfolding estimated_cost available_cash fill_price place
  submit_order req b =
      let ref = b.prices req.ticker in
      if is_market req && not (is_some ref)
      then (paper_refused req no_market_price, [], b)
      else if is_buy req.side
          && b.config.enforce_funds
          && ltb_ℤ (available_cash (currency req.market) b)
              (pos (estimated_cost portion b.config (fill_price portion b.config req ref) req.qty))
      then (paper_refused req insufficient_funds, [], b)
      else place req ref b

  -- `(low if req.side == Side.BUY else high) or price`; 0 counts as absent
  abbrev pub or_price : Option ℕ → ℕ → ℕ
  or_price none price = price
  or_price (some x) price = if x == 0 then price else x

  -- the loop of `on_market_price` over a copy of the waiting orders
  unfoldable pub touch_all :
      ℕ → ℕ → Option ℕ → Option ℕ → List (ℕ × OrderRequest) → Paper → List Fill × Paper
  unfolding fill_all pop chunk
  touch_all ticker price low high [] b = ([], b)
  touch_all ticker price low high ((number, req) ∷ rest) b =
      let touch = or_price (if is_buy req.side then low else high) price in
      let b' = record b { resting = pop number b.resting; reserved = pop number b.reserved } in
      let (fills, b'') =
        if req.ticker == ticker && crosses req (some touch)
        then fill_all portion quot now req req.price
            (chunk share part b.config.max_fill_chunks req.qty) (currency req.market) number b'
        else ([], b) in
      let (more, end) = touch_all ticker price low high rest b'' in (fills ++ more, end)

  -- `on_market_price`
  unfoldable pub on_market_price : ℕ → ℕ → Option ℕ → Option ℕ → Paper → List Fill × Paper
  unfolding set_price touch_all
  on_market_price ticker price low high b =
      touch_all ticker price low high b.resting (set_price ticker price b)

-- `cancel_order`
unfoldable pub cancel_order : OrderRequest → Option ℕ → Paper → OrderAck × Paper
unfolding pop
cancel_order req none b =
    (record (paper_accepted req 0) { broker_order_no = none; tr_id = none }, b)
cancel_order req (some number) b = (
  record (paper_accepted req number) { tr_id = none },
  record b { resting = pop number b.resting; reserved = pop number b.reserved },
)

-- `get_open_orders`
unfoldable pub get_open_orders : Paper → List OrderAck
get_open_orders b = map (λ r. paper_accepted r.1 r.0) b.resting

-- the positions of `get_balance`: the holdings that are not zero
unfoldable pub get_positions : Paper → List Holding
get_positions b = keep_if (λ h. ltb_ℤ h.qty (pos 0) || ltb_ℤ (pos 0) h.qty) b.holdings
