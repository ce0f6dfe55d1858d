-- ===== src/Examples/Watchlist.antt =====
-- The theorems on templates and subscriptions at one ticker.
use short_trading_bot.Base.{ℕ, ◌≡◌, refl, arith, true, none, some, List, [], ◌∷◌, contains, get_at}
use short_trading_bot.Domain.Enums.{krx, d1, m5, PositionState}
use short_trading_bot.Domain.Position.{Lot, is_terminal}
use short_trading_bot.App.Service.State.{World, find_lot, slot_of}
use short_trading_bot.App.Service.Watchlist.{
  Template, Watch, first_with, templates_of, look, add_template, remove_template, route_bar,
  tracked_tickers,
}
use short_trading_bot.App.Service.Watchlist.Uniqueness.{
  IsUnique, add_template-IsUnique, route_bar_once,
}
use short_trading_bot.App.Service.Watchlist.Subscriptions.{NeedsPrices, tracked_tickers_lem}
use short_trading_bot.Examples.Service.{lot, world}

abbrev daily : Template
daily = record {
  strategy_id = 1;
  resolution = d1;
  market = krx;
  regime_filter = true;
  settings = 0;
}

-- the scanner found the ticker on day 7
abbrev watch : Watch
watch = record {
  by_ticker = (5930, daily ∷ []) ∷ [];
  one_shot = ((5930, d1), some 7) ∷ [];
  regime_gated = [];
}

abbrev ended : Lot
ended = record lot { state = PositionState.closed; qty = 0 }

abbrev after_round : World
after_round = record world { lots = ended ∷ []; slots = ((5930, d1), 1) ∷ []; pending = [] }

add_template-IsUnique_example :
    IsUnique (add_template 5930 (record daily { resolution = m5 }) true watch).0
    × IsUnique (remove_template 5930 (record daily { resolution = m5 }) watch)
add_template-IsUnique_example =
    add_template-IsUnique 5930 (record daily { resolution = m5 }) true watch ((refl, tt), tt)

route_bar_once_example :
    ((route_bar 100 8 (λ t. true) 2 5930 d1 (after_round, watch)).0.0 ≡ after_round)
    × (first_with d1
          (templates_of 5930 (route_bar 100 8 (λ t. true) 2 5930 d1 (after_round, watch)).0.1)
        ≡ none)
    × (look (5930, d1) (route_bar 100 8 (λ t. true) 2 5930 d1 (after_round, watch)).0.1.one_shot
        ≡ none)
route_bar_once_example =
    route_bar_once 100 8 (λ t. true) 2 5930 d1 after_round watch daily ended (some 7)
      ((refl, tt), tt) (unfold get_at in ground arith) (unfold slot_of in ground arith)
      (unfold is_terminal in refl) (ground arith)

tracked_tickers_lem_example :
    ((k : ℕ) (t : Template) (ts : List Template)
      → get_at k watch.by_ticker ≡ some (t ∷ ts)
      → contains k (tracked_tickers watch world) ≡ true)
    × ((id : ℕ) (l : Lot)
        → find_lot id world.lots ≡ some l
        → NeedsPrices id l world
        → contains l.ticker (tracked_tickers watch world) ≡ true)
tracked_tickers_lem_example = tracked_tickers_lem watch world
