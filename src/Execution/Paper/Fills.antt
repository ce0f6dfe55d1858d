-- ===== src/Execution/Paper/Fills.antt =====
-- short_trading_bot/execution/broker/paper.py: what an order costs, its pieces, and the booking of a
-- fill.
use short_trading_bot.Base.{
  ℕ, zero, suc, ◌+◌, ◌-◌, ◌*◌, ◌/◌, ◌%◌, max, not, ◌&&◌, Option, some, List, [], ◌∷◌, ◌++◌, ltb,
  ◌==◌, if◌then◌else◌, or_else, find_by,
}
use short_trading_bot.Base.Int.{ℤ, pos, times, ◌+ℤ◌, ◌-ℤ◌, ltb_ℤ}
use short_trading_bot.Domain.Enums.{is_krx, Currency, Side, is_buy}
use short_trading_bot.Execution.Types.{OrderRequest, is_market, Fill, Execution, paper}
use short_trading_bot.Execution.Paper.State.{
  PaperConfig, Holding, Totals, Paper, same_currency, totals_of, put_totals, change_holding,
}

-- the loop of `_chunk`, with what remains and the number of pieces after the first
abbrev pub keep_positive : ℕ → List ℕ → List ℕ
keep_positive q rest = if ltb 0 q then q ∷ rest else rest

unfoldable pub pieces : ℕ → ℕ → ℕ → List ℕ
pieces even remaining zero = keep_positive remaining []
pieces even remaining (suc n) = keep_positive even (pieces even (remaining - even) n)

module _ (share : ℕ) (part : ℕ → ℕ → ℕ) where
  -- the even piece: whole shares if the order is of whole shares
  unfoldable pub even_piece : ℕ → ℕ → ℕ
  even_piece chunks qty = if qty % share == 0 then qty / share / chunks * share else part qty chunks

  -- `_chunk`
  unfoldable pub chunk : ℕ → ℕ → List ℕ
  unfolding even_piece pieces
  chunk max_fill_chunks qty =
      if max 1 max_fill_chunks == 1
      then qty ∷ []
      else pieces (even_piece (max 1 max_fill_chunks) qty) qty (max 1 max_fill_chunks - 1)

module _ (portion : ℕ → ℕ → ℕ) where
  unfoldable pub fill_fee : PaperConfig → ℕ → ℕ
  fill_fee config amount = portion amount config.fee_bps

  unfoldable pub fill_tax : PaperConfig → OrderRequest → ℕ → ℕ
  fill_tax config req amount =
      if not (is_buy req.side) && is_krx req.market then portion amount config.sell_tax_bps else 0

  -- `_fill_price`; a market order has a reference price here
  unfoldable pub fill_price : PaperConfig → OrderRequest → Option ℕ → ℕ
  fill_price config req ref =
      if not (is_market req)
      then req.price
      else if is_buy req.side
      then or_else ref 0 + portion (or_else ref 0) config.slippage_bps
      else or_else ref 0 - portion (or_else ref 0) config.slippage_bps

  -- `_estimated_cost`
  unfoldable pub estimated_cost : PaperConfig → ℕ → ℕ → ℕ
  estimated_cost config price qty = price * qty + portion (price * qty) config.fee_bps

module _ (portion : ℕ → ℕ → ℕ) (quot : ℤ → ℤ → ℤ) (now : ℕ) where
  -- the holding after a purchase, and after a sale
  unfoldable pub add_shares : ℕ → ℕ → Holding → Holding
  add_shares price qty h = record h {
    avg_price =
        if ltb_ℤ (pos 0) (h.qty +ℤ pos qty)
        then quot (times h.avg_price h.qty +ℤ pos (price * qty)) (h.qty +ℤ pos qty)
        else h.avg_price;
    qty = h.qty +ℤ pos qty;
  }

  unfoldable pub remove_shares : ℕ → Holding → Holding
  remove_shares qty h = record h { qty = h.qty -ℤ pos qty }

  -- what a fill does to the cash in its currency
  unfoldable pub cash_after : Side → ℕ → ℕ → ℕ → ℤ → ℤ
  cash_after side amount fee tax cash =
      if is_buy side
      then cash -ℤ pos amount -ℤ pos fee
      else cash +ℤ pos amount -ℤ pos fee -ℤ pos tax

  -- the totals of an order number with one more fill
  unfoldable pub grown : ℕ → ℕ → ℕ → Totals → Totals
  grown qty fee tax t = record {
    number = t.number;
    qty = t.qty + qty;
    fee = t.fee + fee;
    tax = t.tax + tax;
  }

  abbrev execution_of : ℕ → OrderRequest → ℕ → Currency → Totals → Execution
  execution_of id req price ccy t = record {
    exec_id = id;
    broker_order_no = t.number;
    ticker = req.ticker;
    side = req.side;
    qty = t.qty;
    price = price;
    fee = t.fee;
    tax = t.tax;
    currency = ccy;
    ts = some now;
  }

  -- `_apply_and_emit`: the fill, and the broker after it
  unfoldable pub apply_and_emit : OrderRequest → ℕ → ℕ → Currency → ℕ → Paper → Fill × Paper
  unfolding add_shares remove_shares fill_fee fill_tax cash_after grown same_currency change_holding
      put_totals
  apply_and_emit req price qty ccy number b =
      let fee = fill_fee portion b.config (price * qty) in
      let tax = fill_tax portion b.config req (price * qty) in
      let t = grown qty fee tax (totals_of (find_by (λ t. t.number) number b.totals) number) in
      (
        record {
          client_order_id = req.client_order_id;
          qty = qty;
          price = price;
          fee = fee;
          tax = tax;
          currency = ccy;
          ts = some now;
          source = paper;
        },
        record b {
          cash = λ c.
              if same_currency c ccy
              then cash_after req.side (price * qty) fee tax (b.cash c)
              else b.cash c;
          holdings =
              change_holding req.ticker req.market
                (λ h. if is_buy req.side then add_shares price qty h else remove_shares qty h)
                b.holdings;
          exec_seq = b.exec_seq + 1;
          executions = b.executions ++ execution_of (b.exec_seq + 1) req price ccy t ∷ [];
          totals = put_totals t b.totals;
        },
      )

  -- the loop over the pieces of an order
  unfoldable pub fill_all : OrderRequest → ℕ → List ℕ → Currency → ℕ → Paper → List Fill × Paper
  unfolding apply_and_emit
  fill_all req price [] ccy number b = ([], b)
  fill_all req price (qty ∷ rest) ccy number b =
      let (fill, b') = apply_and_emit req price qty ccy number b in
      let (fills, b'') = fill_all req price rest ccy number b' in (fill ∷ fills, b'')
