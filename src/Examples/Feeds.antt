-- ===== src/Examples/Feeds.antt =====
-- Ticks, an account and failed logins, and the theorems about them.
use short_trading_bot.Base.{ℕ, ◌+◌, ◌≡◌, refl, ◌↔◌, true, List, [], ◌∷◌, length, leb, arith}
use short_trading_bot.Domain.Enums.{m1, krx, krw}
use short_trading_bot.Execution.Types.{BalancePosition}
use short_trading_bot.Execution.Reconciler.{in_sync, reconcile}
use short_trading_bot.Execution.Reconciler.Sync.{held_locally, held_at_broker, reconcile_iff}
use short_trading_bot.Market.BarBuilder.{Tick, Bar, OpenBar, on_tick}
use short_trading_bot.Market.BarBuilder.Conservation.{
  feed, feed_volume, bar_volume, open_volume, tick_volume,
}
use short_trading_bot.Api.Throttle.{blocked}
use short_trading_bot.Api.Throttle.Window.{record_all, within, blocked_iff}
use short_trading_bot.Examples.Service.{world}

abbrev print : ℕ → ℕ → Tick
print price ts = record { ticker = 5930; price = price; volume = 3; ts = ts; day = 0 }

-- two ticks in the first minute and one in the second
abbrev ticks : List Tick
ticks = print 100 10 ∷ print 110 50 ∷ print 105 70 ∷ []

abbrev first_bar : Bar
first_bar = record {
  ticker = 5930;
  resolution = m1;
  ts = 0;
  opening = 100;
  high = 110;
  low = 100;
  close = 110;
  volume = 6;
  value = 630;
}

abbrev second_bar : OpenBar
second_bar = record {
  bucket = 60;
  opening = 105;
  high = 105;
  low = 105;
  close = 105;
  volume = 3;
  value = 315;
}

feed_volume_example :
    bar_volume 5930 (first_bar ∷ []) + open_volume 5930 ((5930, second_bar) ∷ [])
    ≡ open_volume 5930 [] + tick_volume 5930 ticks
feed_volume_example =
    feed_volume m1 5930 ticks [] {done = first_bar ∷ []} {bars' = (5930, second_bar) ∷ []}
      (unfold feed on_tick in refl)

abbrev account : List BalancePosition
account = record { ticker = 5930; market = krx; qty = 10; avg_price = 100; currency = krw } ∷ []

reconcile_iff_example :
    (in_sync (reconcile account world.store).0 ≡ true)
    ↔ ((k : ℕ) → held_locally k world.store ≡ held_at_broker k account)
reconcile_iff_example = reconcile_iff account world.store

blocked_iff_example :
    (blocked 2 300 9 500 (record_all 300 9 (100 ∷ 250 ∷ 400 ∷ []) [])).0
    ≡ leb 2 (length (within 300 500 (100 ∷ 250 ∷ 400 ∷ [])))
blocked_iff_example =
    blocked_iff 2 300 9 500 (100 ∷ 250 ∷ 400 ∷ [])
      ((omega arith, (omega arith, tt)), ((omega arith, tt), (tt, tt)))
      (omega arith, (omega arith, (omega arith, tt)))
