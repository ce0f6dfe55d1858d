-- ===== src/Examples/Polls.antt =====
-- A broker that reports one order twice, with a growing total, and the theorems of the poller at it.
use short_trading_bot.Base.{ℕ, ◌≤◌, ◌≡◌, refl, true, none, List, [], ◌∷◌, All, arith}
use short_trading_bot.Domain.Enums.{krw, buy, new}
use short_trading_bot.Execution.Types.{Execution}
use short_trading_bot.Execution.Store.{filled_of}
use short_trading_bot.Execution.Session.{order_in_session}
use short_trading_bot.Execution.OrderManager.{market_of, handle_fill}
use short_trading_bot.Execution.FillPoller.{Polled, poll_locked}
use short_trading_bot.Execution.FillPoller.Delta.{IsSettled}
use short_trading_bot.Execution.FillPoller.Polls.{poll_of, poll_settles, poll_bounded}
use short_trading_bot.Examples.Lots.{floor}
use short_trading_bot.Examples.Orders.{store, evening}

abbrev report : ℕ → ℕ → Execution
report id total = record {
  exec_id = id;
  broker_order_no = 555;
  ticker = 5930;
  side = buy;
  qty = total;
  price = 100;
  fee = 0;
  tax = 0;
  currency = krw;
  ts = none;
}

abbrev reports : List Execution
reports = report 1 3 ∷ report 2 7 ∷ report 3 5 ∷ []

abbrev polled : Polled
polled = poll_of true floor evening none reports [] (store new)

-- three shares, then four more; the last report is older
polled_twice : (polled.applied ≡ 2) × (filled_of 70 polled.store.fills ≡ 7)
unfolding poll_locked handle_fill order_in_session market_of
polled_twice = (refl, refl)

poll_settles_example : All (IsSettled true floor evening none polled.store) reports
poll_settles_example =
    poll_settles true floor evening none reports [] (store new) (refl, tt)
      (refl, (refl, (refl, tt)))

poll_bounded_example : filled_of 70 polled.store.fills ≤ 7
poll_bounded_example =
    poll_bounded true floor evening none 70 7 reports [] (store new) (refl, tt)
      (λ o e i. omega arith, (λ o e i. omega arith, (λ o e i. omega arith, tt))) (omega arith)
