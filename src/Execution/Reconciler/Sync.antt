-- ===== src/Execution/Reconciler/Sync.antt =====
-- When a reconciliation finds the database and the broker in agreement.
use short_trading_bot.Base.{
  ℕ, ◌+◌, ◌≡◌, refl, sym, ◌∙◌, ap, ◌↔◌, true, ◌||◌, List, [], ◌∷◌, map, arith, ◌==◌, if◌then◌else◌,
  keep_if, or_else, get_at, put, get_at-put, contains, contains-insert_sorted, is_some,
  Option-cases, Bool-cases, inl, inr,
}
use short_trading_bot.Domain.Position.{is_open}
use short_trading_bot.Execution.Types.{BalancePosition}
use short_trading_bot.Execution.Store.{Store}
use short_trading_bot.Execution.Reconciler.{
  Drift, in_sync, tally, local_qty, broker_qty, all_tickers, drifts_of, reconcile,
}

-- the shares of a ticker in a list of pairs
abbrev pub shares_of : ℕ → List (ℕ × ℕ) → ℕ
shares_of k [] = 0
shares_of k ((ticker, qty) ∷ pairs) = (if ticker == k then qty else 0) + shares_of k pairs

tally_lem :
    (k : ℕ) (pairs out : List (ℕ × ℕ))
    → or_else (get_at k (tally pairs out)) 0 ≡ or_else (get_at k out) 0 + shares_of k pairs
unfolding tally
tally_lem k [] out = omega arith
tally_lem k ((ticker, qty) ∷ pairs) out =
    let next = put ticker (or_else (get_at ticker out) 0 + qty) out in
    tally_lem k pairs next
    ∙ ground (arith, get_at-put k ticker (or_else (get_at ticker out) 0 + qty) out)

-- a ticker that is not in the list has no entry
contains-all_tickers :
    (k : ℕ) (d : List (ℕ × ℕ)) (rest : List ℕ)
    → contains k (all_tickers d rest) ≡ (is_some (get_at k d) || contains k rest)
unfolding all_tickers get_at
contains-all_tickers k [] rest = ground arith
contains-all_tickers k ((ticker, qty) ∷ d) rest =
    ground
      (arith, contains-insert_sorted k ticker (all_tickers d rest), contains-all_tickers k d rest)

abbrev drift_at : List (ℕ × ℕ) → List (ℕ × ℕ) → ℕ → Drift
drift_at home abroad ticker = record {
  ticker = ticker;
  local_qty = or_else (get_at ticker home) 0;
  broker_qty = or_else (get_at ticker abroad) 0;
}

in_sync_at :
    (home abroad : List (ℕ × ℕ)) (tickers : List ℕ) (k : ℕ)
    → in_sync (map (drift_at home abroad) tickers) ≡ true
    → contains k tickers ≡ true
    → or_else (get_at k home) 0 ≡ or_else (get_at k abroad) 0
unfolding in_sync
in_sync_at home abroad [] k s c = ground arith
in_sync_at home abroad (t ∷ tickers) k s c = ground (arith, in_sync_at home abroad tickers k)

in_sync_all :
    (home abroad : List (ℕ × ℕ)) (tickers : List ℕ)
    → ((k : ℕ) → or_else (get_at k home) 0 ≡ or_else (get_at k abroad) 0)
    → in_sync (map (drift_at home abroad) tickers) ≡ true
unfolding in_sync
in_sync_all home abroad [] h = refl
in_sync_all home abroad (t ∷ tickers) h = ground (arith, h t, in_sync_all home abroad tickers h)

-- the shares of a ticker in the open lots, and at the broker
abbrev pub held_locally : ℕ → Store → ℕ
held_locally k st =
    shares_of k (map (λ r. (r.ticker, r.qty_filled)) (keep_if (λ r. is_open r.state) st.positions))

abbrev pub held_at_broker : ℕ → List BalancePosition → ℕ
held_at_broker k positions = shares_of k (map (λ p. (p.ticker, p.qty)) positions)

locally : (k : ℕ) (st : Store) → or_else (get_at k (local_qty st.positions)) 0 ≡ held_locally k st
unfolding local_qty
locally k st =
    tally_lem k (map (λ r. (r.ticker, r.qty_filled)) (keep_if (λ r. is_open r.state) st.positions))
      []
    ∙ omega arith

at_broker :
    (k : ℕ) (positions : List BalancePosition)
    → or_else (get_at k (broker_qty positions)) 0 ≡ held_at_broker k positions
unfolding broker_qty
at_broker k positions = tally_lem k (map (λ p. (p.ticker, p.qty)) positions) [] ∙ omega arith

-- where no table has the ticker, both have nothing of it
in_sync_everywhere :
    (home abroad : List (ℕ × ℕ)) (k : ℕ)
    → in_sync (drifts_of home abroad) ≡ true
    → or_else (get_at k home) 0 ≡ or_else (get_at k abroad) 0
unfolding drifts_of
in_sync_everywhere home abroad k s =
    let tickers = all_tickers home (all_tickers abroad []) in
    let there =
      contains-all_tickers k home (all_tickers abroad [])
      ∙ ap (λ b. is_some (get_at k home) || b) (contains-all_tickers k abroad []) in
    elim (Bool-cases (contains k tickers)) [
      | inl t ↦ in_sync_at home abroad tickers k s t
      | inr f ↦ ground (arith, Option-cases (get_at k home), Option-cases (get_at k abroad))
    ]

-- A reconciliation reports agreement exactly when, for every ticker, the open lots together have the
-- shares that the positions at the broker have together.
pub reconcile_iff :
    (positions : List BalancePosition) (st : Store)
    → (in_sync (reconcile positions st).0 ≡ true)
      ↔ ((k : ℕ) → held_locally k st ≡ held_at_broker k positions)
unfolding reconcile drifts_of
reconcile_iff positions st =
    let home = local_qty st.positions in
    let abroad = broker_qty positions in
    (
      λ s k. sym (locally k st) ∙ in_sync_everywhere home abroad k s ∙ at_broker k positions,
      λ h.
          in_sync_all home abroad (all_tickers home (all_tickers abroad []))
            λ k. locally k st ∙ h k ∙ sym (at_broker k positions),
    )
