-- ===== src/Examples/Orders.antt =====
-- An order of ten shares that is filled in parts, and the theorems of the order manager at it.
use short_trading_bot.Base.{
  ℕ, ◌+◌, ◌≤◌, ◌<◌, ◌≡◌, refl, ◌↔◌, ◌⊎◌, inl, true, false, Option, none, some, [], ◌∷◌, All, length,
  arith,
}
use short_trading_bot.Base.Int.{pos}
use short_trading_bot.Domain.Enums.{
  krx, d1, nasd, krw, buy, PositionState, OrderState, unknown, new, filled, rejected, expired,
}
use short_trading_bot.Domain.Signal.{OrdDvsn}
use short_trading_bot.Domain.Position.{apply_fill}
use short_trading_bot.Execution.Types.{Fill, OrderRequest, OrderAck, paper}
use short_trading_bot.Execution.Store.{Store, Order, PositionRow, known, find_order, filled_of}
use short_trading_bot.Execution.OrderManager.{
  Response, acked, refused, failed, returned, handle_fill, submit, existing_ack, project,
  is_open_state, expire_stale,
}
use short_trading_bot.Execution.OrderManager.Fills.{filled_iff, filled_early}
use short_trading_bot.Execution.OrderManager.Submission.{
  IsRunning, is_own, submit_again, submit_outcome,
}
use short_trading_bot.Execution.OrderManager.Projection.{
  Agrees, Follows, to_lot, project-Agrees, project-Follows,
}
use short_trading_bot.Execution.OrderManager.Expiry.{IsCurrent, expire_stale_lem}
use short_trading_bot.Examples.Lots.{floor, fresh}

-- the evening of a day, in seconds of the epoch
abbrev pub evening : ℕ
evening = 1_750_000_000

abbrev pub order : Order
order = record {
  order_id = 70;
  lot_id = 1;
  client_order_id = 7;
  broker_order_no = some 555;
  tr_id = none;
  ord_dvsn = OrdDvsn.limit;
  side = buy;
  qty = 10;
  price = 100;
  state = new;
  created_at = evening;
}

abbrev pub position : PositionRow
position = record {
  lot_id = 1;
  ticker = 5930;
  market = known krx;
  currency = krw;
  resolution = d1;
  state = PositionState.watching;
  qty_filled = 0;
  avg_entry_price = 0;
  realized_pnl = pos 0;
  initial_stop = 0;
  peak_price = 0;
  tp_rungs_taken = 0;
  original_qty = 0;
  closed_at = none;
}

abbrev pub store : OrderState → Store
store s = record {
  orders = record order { state = s } ∷ [];
  fills = [];
  positions = position ∷ [];
  audit = [];
  column = λ n. n;
}

abbrev pub part : ℕ → Fill
part q = record {
  client_order_id = 7;
  qty = q;
  price = 100;
  fee = 1;
  tax = 0;
  currency = krw;
  ts = none;
  source = paper;
}

filled_iff_example :
    (filled ≡ filled)
    ↔ (10 ≤ filled_of 70 (handle_fill true floor evening (part 5) (store new)).fills + 5)
unfolding handle_fill
filled_iff_example =
    filled_iff true floor evening (part 5) (store new) {o' = record order { state = filled }} refl
      (λ e. cc) (λ e. cc) refl

-- Half of the order is enough.
filled_early_example :
    (filled ≡ filled)
    × (filled_of 70 (handle_fill true floor evening (part 5) (store new)).fills < 10)
unfolding handle_fill is_open_state
filled_early_example =
    filled_early floor evening (part 5) (store new) {o' = record order { state = filled }} refl refl
      (omega arith) (omega arith) refl

abbrev request : OrderRequest
request = record {
  client_order_id = 7;
  lot_id = 1;
  ticker = 5930;
  market = krx;
  side = buy;
  qty = 10;
  price = 100;
  ord_dvsn = OrdDvsn.limit;
}

abbrev accepted_ack : OrderAck
accepted_ack = record {
  client_order_id = 7;
  accepted = true;
  broker_order_no = some 555;
  tr_id = none;
  reject_reason = none;
}

-- a broker that fills four shares at once, and one whose line breaks
abbrev quick : OrderRequest → Response
quick req = (part 4 ∷ [], acked accepted_ack)

abbrev broken : OrderRequest → Response
broken req = ([], failed)

abbrev empty_store : Store
empty_store = record {
  orders = [];
  fills = [];
  positions = position ∷ [];
  audit = [];
  column = λ n. n;
}

submit_again_example :
    let st' = (submit true floor evening 70 broken request empty_store).0 in
    (o : Order) × (find_order 7 st'.orders ≡ some o)
    × (submit true floor evening 71 quick request st' ≡ (st', returned (existing_ack request o)))
submit_again_example = submit_again true floor evening 70 71 broken quick request empty_store

submit_outcome_example :
    (o : Order) × (find_order 7 (submit true floor evening 70 quick request empty_store).0.orders
      ≡ some o)
    × (acked accepted_ack ≡ failed → o.state ≡ unknown)
    × ((text : ℕ) → acked accepted_ack ≡ refused text → o.state ≡ rejected)
    × ((ack : OrderAck)
        → acked accepted_ack ≡ acked ack
        → ack.accepted ≡ false
        → o.state ≡ rejected)
    × ((ack : OrderAck)
        → acked accepted_ack ≡ acked ack
        → ack.accepted ≡ true
        → (o.state ≡ new) ⊎ IsRunning o)
    × ((ack : OrderAck)
        → acked accepted_ack ≡ acked ack
        → ack.accepted ≡ true
        → is_own 7 (part 4 ∷ []) ≡ true
        → IsRunning o)
submit_outcome_example = submit_outcome true floor evening 70 quick request empty_store refl

-- a broker that completes the order before it takes note of the cancellation
abbrev racing : OrderRequest → Option ℕ → Response
racing req number = (part 10 ∷ [], acked accepted_ack)

project-Agrees_example :
    Agrees
      (apply_fill floor (to_lot buy false (part 4)) fresh).0
      (project floor evening buy (part 4) position)
project-Agrees_example =
    project-Agrees floor evening buy false (part 4) fresh position (ground arith)

project-Follows_example :
    Follows
      (project floor evening buy (part 4) position).state
      (apply_fill floor (to_lot buy false (part 4)) fresh).0.state
project-Follows_example =
    project-Follows floor evening buy false (part 4) fresh position (ground arith) (omega arith)
      (λ e. cc) (inl refl)

-- three days later
abbrev later_on : ℕ
later_on = 1_750_259_200

expire_stale_lem_example :
    let (st', count) = expire_stale later_on [] (store new) in
    All (IsCurrent later_on [] (position ∷ [])) st'.orders
    × ((cid : ℕ) (o : Order)
        → find_order cid (store new).orders ≡ some o
        → (IsCurrent later_on [] (position ∷ []) o → find_order cid st'.orders ≡ some o)
          × (¬ IsCurrent later_on [] (position ∷ []) o
              → find_order cid st'.orders ≡ some (record o { state = expired })))
    × (length st'.audit ≡ 0 + count)
    × (st'.positions ≡ position ∷ [])
    × (st'.fills ≡ [])
expire_stale_lem_example = expire_stale_lem later_on [] (store new)

abbrev abroad : Store
abroad = record {
  orders = order ∷ [];
  fills = [];
  positions = record position { market = known nasd } ∷ [];
  audit = [];
  column = λ n. n;
}
