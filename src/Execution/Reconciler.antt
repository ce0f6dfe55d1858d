-- ===== src/Execution/Reconciler.antt =====
-- short_trading_bot/execution/reconciler.py: the shares of each ticker in the database against those
-- at the broker. The report is what `reconcile` returns; the entry in the log has no field that
-- another part reads, so only that it is written is modelled.
pub mod Sync
use short_trading_bot.Base.{
  ℕ, ◌+◌, Bool, true, false, not, ◌&&◌, List, [], ◌∷◌, ◌++◌, map, ◌==◌, if◌then◌else◌, keep_if,
  or_else, get_at, put, insert_sorted,
}
use short_trading_bot.Base.Int.{ℤ, pos, sub_ℕ}
use short_trading_bot.Domain.Position.{is_open}
use short_trading_bot.Execution.Types.{BalancePosition}
use short_trading_bot.Execution.Store.{Store, PositionRow, reconcile_drift}
use short_trading_bot.Execution.OrderManager.{audit_row}

pub record Drift : Type 0 where
  pub ticker : ℕ
  pub local_qty : ℕ
  pub broker_qty : ℕ

-- `Drift.delta`
abbrev pub delta : Drift → ℤ
delta d = sub_ℕ d.broker_qty d.local_qty

abbrev is_zero : ℤ → Bool
is_zero (pos n) = n == 0
is_zero _ = false

-- `ReconcileReport.in_sync`
unfoldable pub in_sync : List Drift → Bool
in_sync [] = true
in_sync (d ∷ drifts) = is_zero (delta d) && in_sync drifts

-- `ReconcileReport.mismatches`
unfoldable pub mismatches : List Drift → List Drift
mismatches drifts = keep_if (λ d. not (is_zero (delta d))) drifts

-- `out[ticker] = out.get(ticker, 0) + qty`, over pairs of a ticker and a quantity
unfoldable pub tally : List (ℕ × ℕ) → List (ℕ × ℕ) → List (ℕ × ℕ)
unfolding get_at put
tally [] out = out
tally ((ticker, qty) ∷ pairs) out =
    tally pairs (put ticker (or_else (get_at ticker out) 0 + qty) out)

-- `_local_qty`
unfoldable pub local_qty : List PositionRow → List (ℕ × ℕ)
unfolding tally is_open
local_qty rows =
    tally (map (λ r. (r.ticker, r.qty_filled)) (keep_if (λ r. is_open r.state) rows)) []

-- the quantities at the broker
unfoldable pub broker_qty : List BalancePosition → List (ℕ × ℕ)
unfolding tally
broker_qty positions = tally (map (λ p. (p.ticker, p.qty)) positions) []

-- `sorted(set(...) | set(...))`
unfoldable pub all_tickers : List (ℕ × ℕ) → List ℕ → List ℕ
unfolding insert_sorted
all_tickers [] tickers = tickers
all_tickers ((ticker, _) ∷ d) tickers = insert_sorted ticker (all_tickers d tickers)

unfoldable pub drifts_of : List (ℕ × ℕ) → List (ℕ × ℕ) → List Drift
unfolding all_tickers get_at
drifts_of home abroad =
    map
      (λ ticker. record {
        ticker = ticker;
        local_qty = or_else (get_at ticker home) 0;
        broker_qty = or_else (get_at ticker abroad) 0;
      })
      (all_tickers home (all_tickers abroad []))

-- `reconcile`, on the positions that the broker reports
unfoldable pub reconcile : List BalancePosition → Store → List Drift × Store
unfolding drifts_of local_qty broker_qty in_sync
reconcile positions st =
    let report = drifts_of (local_qty st.positions) (broker_qty positions) in
    (
      report,
      if in_sync report
          then st
          else record st { audit = st.audit ++ audit_row reconcile_drift 0 0 ∷ [] },
    )
