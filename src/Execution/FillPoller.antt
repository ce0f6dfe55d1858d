-- ===== src/Execution/FillPoller.antt =====
-- short_trading_bot/execution/fill_poller.py: the broker's cumulative executions become fills, as
-- differences from what the fill rows already hold. The handler of the fills and the division of
-- `Decimal` are arguments. `_lock` lets one poll run at a time, so a poll is a function.
pub mod Resolution
pub mod Delta
pub mod Polls
use short_trading_bot.Base.{
  ℕ, ◌+◌, ◌-◌, ◌*◌, Bool, false, ◌&&◌, Option, none, some, List, [], ◌∷◌, map, ltb, leb, ◌==◌,
  if◌then◌else◌, keep_if, contains, sum,
}
use short_trading_bot.Execution.Types.{Fill, Execution, poll}
use short_trading_bot.Execution.Store.{Store, Order, FillRow, PositionRow, filled_of}
use short_trading_bot.Execution.Session.{order_in_session, kst_date, day_seconds, kst_offset}
use short_trading_bot.Execution.OrderManager.{market_of}

-- `_day_close`: 15:30 in Korea
unfoldable pub day_close : ℕ → ℕ
day_close day = day * day_seconds + 55800 - kst_offset

abbrev pub has_number : ℕ → Option ℕ → Bool
has_number n none = false
has_number n (some m) = m == n

-- the orders that a number may mean: of this session, or of a past day
abbrev of_time : ℕ → List PositionRow → Option ℕ → Order → Bool
of_time now positions none o = order_in_session o.created_at (market_of positions o) now
of_time now positions (some day) o = kst_date o.created_at == day

unfoldable pub is_candidate : ℕ → List PositionRow → Option ℕ → ℕ → Order → Bool
is_candidate now positions day number o =
    has_number number o.broker_order_no && of_time now positions day o

-- `max(candidates, key=created_at)`: the first of the latest
abbrev pub later : Order → Option Order → Order
later o none = o
later o (some p) = if ltb o.created_at p.created_at then p else o

unfoldable pub latest : List Order → Option Order
latest [] = none
latest (o ∷ os) = some (later o (latest os))

-- the order that a number means
unfoldable pub resolve_order : ℕ → Option ℕ → ℕ → Store → Option Order
unfolding is_candidate latest
resolve_order now day number st =
    latest (keep_if (is_candidate now st.positions day number) st.orders)

abbrev rows_of : ℕ → List FillRow → List FillRow
rows_of id fills = keep_if (λ r. r.order_id == id) fills

abbrev pub notional_of : ℕ → List FillRow → ℕ
notional_of id fills = sum (map (λ r. r.qty * r.price) (rows_of id fills))

abbrev pub fee_of : ℕ → List FillRow → ℕ
fee_of id fills = sum (map (λ r. r.fee) (rows_of id fills))

abbrev pub tax_of : ℕ → List FillRow → ℕ
tax_of id fills = sum (map (λ r. r.tax) (rows_of id fills))

-- what `_resolve` returns
pub record Applied : Type 0 where
  pub client_order_id : ℕ
  pub qty : ℕ
  pub notional : ℕ
  pub fee : ℕ
  pub tax : ℕ

abbrev pub applied_of : Order → List FillRow → Applied
applied_of o fills = record {
  client_order_id = o.client_order_id;
  qty = filled_of o.order_id fills;
  notional = notional_of o.order_id fills;
  fee = fee_of o.order_id fills;
  tax = tax_of o.order_id fills;
}

unfoldable pub resolve : ℕ → Option ℕ → ℕ → Store → Option Applied
unfolding resolve_order
resolve now day number st = elim (resolve_order now day number st) [
  | none ↦ none
  | some o ↦ some (applied_of o st.fills)
]

-- the price of the difference of two totals
unfoldable pub delta_price : (ℕ → ℕ → ℕ) → Execution → Applied → ℕ
delta_price quot ex r =
    if leb (ex.qty * ex.price) r.notional
    then ex.price
    else quot (ex.qty * ex.price - r.notional) (ex.qty - r.qty)

-- `ex.ts or (_day_close(day) if day is not None else None)`
abbrev stamp : Option ℕ → Option ℕ → Option ℕ
stamp (some t) day = some t
stamp none none = none
stamp none (some day) = some (day_close day)

unfoldable pub delta_fill : (ℕ → ℕ → ℕ) → Option ℕ → Execution → Applied → Fill
unfolding delta_price
delta_fill quot day ex r = record {
  client_order_id = r.client_order_id;
  qty = ex.qty - r.qty;
  price = delta_price quot ex r;
  fee = ex.fee - r.fee;
  tax = ex.tax - r.tax;
  currency = ex.currency;
  ts = stamp ex.ts day;
  source = poll;
}

-- the database, `_seen`, and the number of fills delivered
pub record Polled : Type 0 where
  pub store : Store
  pub seen : List ℕ
  pub applied : ℕ

module _ (quot : ℕ → ℕ → ℕ) (handler : Fill → Store → Store) (now : ℕ) (day : Option ℕ) where
  unfoldable pub deliver : Execution → Applied → Polled → Polled
  unfolding delta_fill
  deliver ex r s = if leb ex.qty r.qty then record s { seen = ex.exec_id ∷ s.seen } else record {
    store = handler (delta_fill quot day ex r) s.store;
    seen = ex.exec_id ∷ s.seen;
    applied = s.applied + 1;
  }

  -- one round of the loop
  unfoldable pub poll_one : Execution → Polled → Polled
  unfolding deliver resolve
  poll_one ex s =
      if contains ex.exec_id s.seen
      then s
      else elim (resolve now day ex.broker_order_no s.store) [ none ↦ s | some r ↦ deliver ex r s ]

  unfoldable pub poll_all : List Execution → Polled → Polled
  unfolding poll_one
  poll_all [] s = s
  poll_all (ex ∷ exs) s = poll_all exs (poll_one ex s)

  -- `_poll_locked`, on what the broker returned
  unfoldable pub poll_locked : List Execution → List ℕ → Store → Polled
  unfolding poll_all
  poll_locked exs seen st = poll_all exs (record { store = st; seen = seen; applied = 0 })
