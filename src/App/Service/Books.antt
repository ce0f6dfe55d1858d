-- ===== src/App/Service/Books.antt =====
-- short_trading_bot/app/service.py: the sums that risk limits and sizing are computed from, in won.
pub mod Caps
use short_trading_bot.Base.{
  ℕ, ◌+◌, ◌-◌, ◌*◌, ◌/◌, Bool, true, false, not, ◌&&◌, ◌||◌, Option, none, some, List, [], ◌∷◌, ltb,
  leb, ◌==◌, if◌then◌else◌, or_else, keep_if, length, get_at,
}
use short_trading_bot.Base.Int.{ℤ, pos, ◌+ℤ◌, ◌-ℤ◌, ◌*ℤ◌, ltb_ℤ}
use short_trading_bot.Domain.Enums.{Side, is_buy, is_overseas, Currency}
use short_trading_bot.Domain.Position.{Lot, is_open}
use short_trading_bot.Execution.Types.{Fill}
use short_trading_bot.Execution.Fx.{FxRates, rate, total_krw}
use short_trading_bot.Risk.Manager.{RiskSnapshot}
use short_trading_bot.App.Service.State.{World, PendingOrder, find_lot, tracked_lots, add_to}

-- the price that a lot is valued at: the last one seen, or the average entry
unfoldable pub price_of : World → Lot → ℕ
price_of w lot = or_else (get_at lot.ticker w.last_price) lot.avg_entry

abbrev pub max_ℤ : ℤ → ℤ → ℤ
max_ℤ a b = if ltb_ℤ a b then b else a

module _ (rates : FxRates) where
  -- `_adjust_cached_cash`
  abbrev moved_cash : Option ℤ → Bool → ℕ → ℕ → ℕ → Option ℤ
  moved_cash none buys amount costs r = none
  moved_cash (some cash) buys amount costs r =
      some
        (if buys then cash -ℤ pos (amount + costs) *ℤ r else cash +ℤ (pos amount -ℤ pos costs) *ℤ r)

  unfoldable pub adjust_cached_cash : Currency → Side → Fill → World → World
  unfolding rate
  adjust_cached_cash c side fill w = record w {
    cash_cache =
        moved_cash w.cash_cache (is_buy side) (fill.qty * fill.price) (fill.fee + fill.tax)
          (rate rates c);
    equity_stale = true;
  }

  holdings_of : World → List Lot → ℤ
  unfolding price_of
  holdings_of w [] = pos 0
  holdings_of w (lot ∷ lots) =
      let rest = holdings_of w lots in
      if ltb 0 lot.qty
      then pos (lot.qty * price_of w lot * rate rates lot.currency) +ℤ rest
      else rest

  -- `_holdings_value`
  unfoldable pub holdings_value : World → ℤ
  unfolding holdings_of
  holdings_value w = holdings_of w (tracked_lots w)

  -- `_cached_equity`, with the balance that the broker answers, `none` for an exception, and with
  -- whether the cache has outlived `EQUITY_TTL_SECONDS`
  abbrev pub refreshed_cash : Option (List (Currency × ℤ)) → World → World
  refreshed_cash none w = w
  refreshed_cash (some cash) w = record w {
    cash_cache = some (total_krw rates cash);
    equity_stale = false;
  }

  abbrev pub is_none {ℓ} : {A : Type ℓ} → Option A → Bool
  is_none none = true
  is_none (some _) = false

  abbrev pub plus_holdings : Option ℤ → ℤ → Option ℤ
  plus_holdings none held = none
  plus_holdings (some cash) held = some (cash +ℤ held)

  unfoldable pub cached_equity : Bool → Option (List (Currency × ℤ)) → World → Option ℤ × World
  unfolding holdings_value
  cached_equity old answer w =
      let w' =
        if is_none w.cash_cache || w.equity_stale || old then refreshed_cash answer w else w in
      (plus_holdings w'.cash_cache (holdings_value w'), w')

  -- the exposure by ticker: of the open lots, and of the purchases that have not been filled
  unfoldable pub lots_exposure : World → List Lot → ℕ → ℕ
  unfolding price_of rate
  lots_exposure w [] ticker = 0
  lots_exposure w (lot ∷ lots) ticker =
      (if is_open lot.state && lot.ticker == ticker
        then lot.qty * price_of w lot * rate rates lot.currency
        else 0)
      + lots_exposure w lots ticker

  -- the metas of the locks that are purchases, in the order of the locks
  abbrev buy_meta : Option PendingOrder → List PendingOrder → List PendingOrder
  buy_meta none rest = rest
  buy_meta (some po) rest = if is_buy po.side then po ∷ rest else rest

  unfoldable pub pending_buys : List (ℕ × ℕ) → List (ℕ × PendingOrder) → List PendingOrder
  unfolding get_at
  pending_buys [] metas = []
  pending_buys ((_, cid) ∷ locks) metas = buy_meta (get_at cid metas) (pending_buys locks metas)

  -- what is left of a purchase, valued at its limit price
  abbrev remaining_value : PendingOrder → Option Lot → ℕ → ℕ
  remaining_value po none ticker = 0
  remaining_value po (some lot) ticker =
      if lot.ticker == ticker
      then (po.requested_qty - po.filled_qty) * po.price * rate rates lot.currency
      else 0

  unfoldable pub buys_exposure : World → List PendingOrder → ℕ → ℕ
  buys_exposure w [] ticker = 0
  buys_exposure w (po ∷ more) ticker =
      remaining_value po (find_lot po.lot_id w.lots) ticker + buys_exposure w more ticker

  -- the lots that wait for their first purchase, each once
  abbrev waits_closed : Option Lot → Bool
  waits_closed none = false
  waits_closed (some lot) = not (is_open lot.state)

  unfoldable pub pending_lots : World → List PendingOrder → List ℕ
  pending_lots w [] = []
  pending_lots w (po ∷ more) =
      let rest = pending_lots w more in
      if waits_closed (find_lot po.lot_id w.lots) then add_to po.lot_id rest else rest

  unfoldable pub open_count : World → ℕ
  unfolding pending_buys pending_lots
  open_count w =
      length (keep_if (λ lot. is_open lot.state) (tracked_lots w))
      + length (pending_lots w (pending_buys w.pending w.metas))

  -- `_risk_snapshot`
  unfoldable pub risk_snapshot : ℤ → World → RiskSnapshot × World
  unfolding lots_exposure buys_exposure open_count
  risk_snapshot equity w =
      let w' = record w { peak_equity = max_ℤ w.peak_equity equity } in
      (
        record {
          equity = equity;
          open_positions = open_count w;
          daily_pnl = w.daily_realized;
          ticker_exposure = λ ticker. some (
              pos (
                lots_exposure w (tracked_lots w) ticker
                + buys_exposure w (pending_buys w.pending w.metas) ticker));
          peak_equity = some w'.peak_equity;
        },
        w',
      )

-- `_cap_entry_qty`, with `quot` for the division of `Decimal` and `share` units in one share
abbrev pub capped : ℕ → (ℕ → ℕ → ℕ) → Bool → ℕ → ℕ → ℕ
capped share quot overseas most unit_cost =
    if overseas then quot most unit_cost else most / (unit_cost * share) * share

abbrev pub cap_qty : ℕ → (ℕ → ℕ → ℕ) → Option ℕ → Bool → ℕ → ℕ → ℕ → ℕ
cap_qty share quot none overseas qty price fx_rate = qty
cap_qty share quot (some most) overseas qty price fx_rate =
    if price == 0 || fx_rate == 0
    then qty
    else if leb (price * qty * fx_rate) most
    then qty
    else capped share quot overseas most (price * fx_rate)

unfoldable pub cap_entry_qty : ℕ → (ℕ → ℕ → ℕ) → Option ℕ → Lot → ℕ → ℕ → ℕ → ℕ
cap_entry_qty share quot most lot qty price fx_rate =
    cap_qty share quot most (is_overseas lot.market) qty price fx_rate
