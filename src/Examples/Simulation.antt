-- ===== src/Examples/Simulation.antt =====
-- A simulated purchase in three pieces, and the theorems of the simulated broker at it.
use short_trading_bot.Base.{ℕ, ◌*◌, ◌/◌, ◌≡◌, refl, true, false, [], ◌∷◌, map, sum, arith}
use short_trading_bot.Base.Int.{ℤ, pos, ◌-ℤ◌, ◌≤ℤ◌}
use short_trading_bot.Domain.Enums.{krx, krw, buy, currency}
use short_trading_bot.Domain.Signal.{OrdDvsn}
use short_trading_bot.Execution.Types.{OrderRequest, is_market}
use short_trading_bot.Execution.Paper.State.{Paper, new_paper, set_price}
use short_trading_bot.Execution.Paper.Fills.{chunk, even_piece, pieces, estimated_cost, fill_price}
use short_trading_bot.Execution.Paper.Desk.{submit_order, place, available_cash, reserved_in}
use short_trading_bot.Execution.Paper.Funds.{IsExact, submit_order_paid}
use short_trading_bot.Examples.Lots.{floor}

in_pieces : chunk 4 floor 3 40 ≡ 12 ∷ 12 ∷ 16 ∷ []
unfolding chunk even_piece pieces
in_pieces = refl

abbrev broker : Paper
broker = new_paper (record {
  initial_cash = 100_000;
  slippage_bps = 5;
  fee_bps = 100;
  sell_tax_bps = 20;
  max_fill_chunks = 3;
  enforce_funds = true;
  resting_limits = false;
})

abbrev request : OrderRequest
request = record {
  client_order_id = 7;
  lot_id = 1;
  ticker = 5930;
  market = krx;
  side = buy;
  qty = 40;
  price = 100;
  ord_dvsn = OrdDvsn.limit;
}

abbrev basis_points : ℕ → ℕ → ℕ
basis_points x b = x * b / 10_000

-- Divisions of average prices are not looked at here.
abbrev keep_sum : ℤ → ℤ → ℤ
keep_sum a b = a

-- Amounts in ten-thousandths, where a share in basis points is exact.
abbrev exact_points : ℕ → ℕ → ℕ
exact_points x b = x * b

exact_points-IsExact : IsExact exact_points
exact_points-IsExact a a' b = grind arith

abbrev rich : Paper
rich = record (set_price 5930 90 (record broker { cash = λ _. pos 1_000_000 })) { seq = 3 }

submit_order_paid_example :
    let (_, fills, b') = submit_order 4 floor exact_points keep_sum 5 request rich in
    (◌≡◌ {A = ℕ} (sum (map (λ f. f.qty) fills)) 40) × (pos 0 ≤ℤ available_cash krw b')
unfolding new_paper submit_order place is_market currency available_cash set_price reserved_in
    estimated_cost fill_price ◌-ℤ◌
submit_order_paid_example =
    submit_order_paid 4 floor exact_points keep_sum 5 request rich exact_points-IsExact
      (omega arith) (omega arith) refl refl refl refl
