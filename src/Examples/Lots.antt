-- ===== src/Examples/Lots.antt =====
-- A lot that is bought twice and sold in two parts, and its theorems at that run.
use short_trading_bot.Base.{ℕ, ◌/◌, ◌<◌, ◌≡◌, refl, false, none, some, List, [], ◌∷◌, arith}
use short_trading_bot.Base.Int.{pos, negsuc, ◌+ℤ◌, ◌-ℤ◌, ◌*ℤ◌}
use short_trading_bot.Domain.Enums.{d1, krx, krw, buy, sell, watching, holding, closed, cancelled}
use short_trading_bot.Domain.Signal.{trim, Intent, OrdDvsn}
use short_trading_bot.Domain.Position.{
  Lot, LotFill, Snapshot, blended, on_bar, begin_exit, Strategy, apply_fill, transition_to,
}
use short_trading_bot.Domain.Position.Accounting.{
  IsDivision, apply_fills, net, total_cash, buy_fees, net-apply_fills,
}
use short_trading_bot.Domain.Position.Machine.{
  Call, IsSound, perform, perform_all, perform_all-IsSound, cancelled_orphan,
}

abbrev pub floor : ℕ → ℕ → ℕ
floor n d = n / d

abbrev pub fresh : Lot
fresh = record {
  lot_id = 1;
  ticker = 5930;
  market = krx;
  currency = krw;
  resolution = d1;
  state = watching;
  qty = 0;
  avg_entry = 0;
  realized_pnl = pos 0;
  peak_price = 0;
  bars_held = 0;
  initial_stop = none;
  original_qty = 0;
  tp_rungs_taken = 0;
  pending_stop = some 90;
  pending_original_qty = none;
}

abbrev bought_at : ℕ → ℕ → LotFill
bought_at qty price = record {
  side = buy;
  qty = qty;
  price = price;
  fee = 2;
  tax = 0;
  is_add = false;
}

abbrev sold_at : ℕ → ℕ → LotFill
sold_at qty price = record {
  side = sell;
  qty = qty;
  price = price;
  fee = 3;
  tax = 4;
  is_add = false;
}

abbrev trades : List LotFill
trades = bought_at 10 100 ∷ bought_at 10 200 ∷ sold_at 5 180 ∷ sold_at 15 140 ∷ []

trades_close :
    let lot = apply_fills floor trades fresh in
    (lot.state ≡ closed) × (lot.realized_pnl ≡ negsuc 13)
unfolding apply_fills apply_fill ◌+ℤ◌ ◌-ℤ◌ ◌*ℤ◌
trades_close = (refl, refl)

net-apply_fills_example :
    net (apply_fills floor trades fresh) ≡ net fresh +ℤ total_cash trades +ℤ pos (buy_fees trades)
unfolding apply_fill blended
net-apply_fills_example =
    net-apply_fills floor trades fresh
      (λ e. cc, (λ e. cc, (λ e. omega arith, (λ e. omega arith, tt))))
      (λ e. refl, (λ e. refl, (λ e. cc, (λ e. cc, tt))))

floor-IsDivision : IsDivision floor
floor-IsDivision = record {
  at_least = λ lo n d p h. grind arith;
  at_most = λ hi n d p h. grind arith;
}

abbrev later_trades : List LotFill
later_trades = bought_at 10 200 ∷ sold_at 5 180 ∷ []

abbrev held : Lot
held = record fresh { state = holding; qty = 10; avg_entry = 100; peak_price = 100 }

abbrev calls : List Call
calls =
    Call.apply_fill (bought_at 10 100)
    ∷ Call.on_bar 130
    ∷ Call.begin_exit
    ∷ Call.transition closed
    ∷ Call.apply_fill (sold_at 10 120)
    ∷ Call.apply_fill (bought_at 3 110)
    ∷ []

calls_reopen : let lot = perform_all floor calls fresh in (lot.state ≡ holding) × (lot.qty ≡ 3)
unfolding perform_all perform apply_fill on_bar begin_exit transition_to
calls_reopen = (refl, refl)

perform_all-IsSound_example : IsSound (perform_all floor calls fresh)
perform_all-IsSound_example = perform_all-IsSound floor calls fresh (ground arith)

abbrev retired : Lot
retired = record fresh { state = cancelled }

cancelled_orphan_example :
    let lot' = (apply_fill floor (bought_at 10 100) retired).0 in
    (0 < lot'.qty) × ((perform_all floor calls lot').state ≡ cancelled)
cancelled_orphan_example =
    cancelled_orphan floor (bought_at 10 100) calls retired refl (omega arith) refl

abbrev take_profit : Intent
take_profit = record {
  kind = trim;
  side = sell;
  qty = none;
  fraction = some (1, 3);
  ord_dvsn = OrdDvsn.market;
  price = 0;
  stop_price = none;
  reason = "take_profit_1";
}

abbrev ladder : Strategy
ladder = record { warmup_bars = 60; decide = λ ctx. take_profit ∷ [] }

abbrev bar : Snapshot
bar = record { resolution = d1; bar_count = 80; close = 120 }
