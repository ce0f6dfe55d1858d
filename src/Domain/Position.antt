-- ===== src/Domain/Position.antt =====
-- short_trading_bot/domain/position.py: the position lot. Quantities, prices and amounts are counted
-- in a fixed smallest unit, so sums, differences and products of `Decimal` are exact; its division,
-- which rounds, is the parameter `quot`. A method that raises `IllegalTransition` returns the reason
-- and the lot as it stands at the raise.
pub mod Machine
pub mod Accounting
pub mod Bars
pub mod Evaluation
use mathlib.Core.Logic.{ite}
use mathlib.Core.List.{foldl}
use Prim.Native.String.{String}
use text.Mathlib.Text.{starts_with}
use short_trading_bot.Base.{
  ℕ, ◌+◌, ◌-◌, ◌*◌, min, Bool, true, false, not, ◌&&◌, Option, none, some, List, [], ◌∷◌, ltb, ◌==◌,
  if◌then◌else◌, or_else,
}
use short_trading_bot.Base.Int.{ℤ, pos, sub_ℕ, ◌+ℤ◌, ◌-ℤ◌, ◌*ℤ◌}
use short_trading_bot.Domain.Enums.{
  Resolution, Resolution-discrete, Market, Currency, Side, buy, sell, PositionState, watching,
  holding, scaling, exiting, closed, error, cancelled,
}
use short_trading_bot.Domain.Signal.{IntentKind, enter, trim, hold, OrdDvsn, Intent}

-- `strategy` and the rest of `params` are arguments of `evaluate`; texts that are only compared
-- are numbers.
pub record Lot : Type 0 where
  pub lot_id : ℕ
  pub ticker : ℕ
  pub market : Market
  pub currency : Currency
  pub resolution : Resolution
  pub state : PositionState
  pub qty : ℕ
  pub avg_entry : ℕ
  pub realized_pnl : ℤ
  pub peak_price : ℕ
  pub bars_held : ℕ
  pub initial_stop : Option ℕ
  pub original_qty : ℕ
  pub tp_rungs_taken : ℕ
  pub pending_stop : Option ℕ
  pub pending_original_qty : Option ℕ

-- the two messages of `IllegalTransition`
pub data Illegal : Type 0 where
  not_allowed would_orphan : Illegal

abbrev pub Outcome : Type 0
Outcome = Lot × Option Illegal

-- the next statement, unless the last one raised
abbrev pub and_then : Outcome → (Lot → Outcome) → Outcome
and_then (lot, none) f = f lot
and_then (lot, some e) f = (lot, some e)

-- `_ALLOWED`
unfoldable pub allowed : PositionState → PositionState → Bool
allowed watching holding = true
allowed watching cancelled = true
allowed watching error = true
allowed holding scaling = true
allowed holding exiting = true
allowed holding closed = true
allowed holding error = true
allowed scaling holding = true
allowed scaling exiting = true
allowed scaling closed = true
allowed scaling error = true
allowed exiting closed = true
allowed exiting holding = true
allowed exiting error = true
allowed error holding = true
allowed error exiting = true
allowed error closed = true
allowed error cancelled = true
allowed _ _ = false

abbrev pub is_closed : PositionState → Bool
is_closed closed = true
is_closed _ = false

unfoldable pub transition_to : PositionState → Lot → Outcome
unfolding allowed
transition_to new_state lot =
    if not (allowed lot.state new_state)
    then (lot, some not_allowed)
    else if is_closed new_state && ltb 0 lot.qty
    then (lot, some would_orphan)
    else (record lot { state = new_state }, none)

-- a test of `state in (HOLDING, SCALING)`
abbrev is_held : PositionState → Bool
is_held holding = true
is_held scaling = true
is_held _ = false

unfoldable pub begin_exit : Lot → Outcome
unfolding transition_to
begin_exit lot = if is_held lot.state then transition_to exiting lot else (lot, none)

unfoldable pub mark_error : Lot → Outcome
unfolding transition_to
mark_error lot = transition_to error lot

unfoldable pub recover : PositionState → Lot → Outcome
unfolding transition_to
recover to lot = transition_to to lot

unfoldable pub reopen_orphan : Lot → Lot
reopen_orphan lot =
    if is_closed lot.state && ltb 0 lot.qty then record lot { state = holding } else lot

unfoldable pub restore_pending_entry : Option ℕ → Option ℕ → Lot → Lot
restore_pending_entry stop original_qty lot = record lot {
  pending_stop = stop;
  pending_original_qty = original_qty;
}

unfoldable pub is_open : PositionState → Bool
is_open holding = true
is_open scaling = true
is_open exiting = true
is_open _ = false

unfoldable pub is_terminal : PositionState → Bool
is_terminal closed = true
is_terminal cancelled = true
is_terminal _ = false

unfoldable pub on_bar : ℕ → Lot → Lot
unfolding is_open
on_bar high lot =
    if is_open lot.state
    then record lot {
      bars_held = lot.bars_held + 1;
      peak_price = if ltb lot.peak_price high then high else lot.peak_price;
    }
    else lot

unfoldable pub record_tp_rung : Lot → Lot
record_tp_rung lot = record lot { tp_rungs_taken = lot.tp_rungs_taken + 1 }

unfoldable pub rebase_entry_qty : ℕ → Lot → Lot
rebase_entry_qty qty lot = record lot { pending_original_qty = some qty }

-- The part of an indicator snapshot that the lot reads.
pub record Snapshot : Type 0 where
  pub resolution : Resolution
  pub bar_count : ℕ
  pub close : ℕ

-- What the lot hands to its strategy. The indicators, the previous snapshot, the news score and
-- the time are passed on unread, and reach `decide` from outside.
pub record StrategyContext : Type 0 where
  pub snapshot : Snapshot
  pub state : PositionState
  pub qty : ℕ
  pub avg_entry : ℕ
  pub peak_price : ℕ
  pub bars_held : ℕ
  pub equity : ℕ
  pub initial_stop : Option ℕ
  pub original_qty : ℕ
  pub tp_rungs_taken : ℕ

pub record Strategy : Type 0 where
  pub warmup_bars : ℕ
  pub decide : StrategyContext → List Intent

-- the intent that does nothing
abbrev pub hold_intent : String → Intent
hold_intent reason = record {
  kind = hold;
  side = buy;
  qty = none;
  fraction = none;
  ord_dvsn = OrdDvsn.market;
  price = 0;
  stop_price = none;
  reason = reason;
}

abbrev pub or_keep : Option ℕ → Option ℕ → Option ℕ
or_keep none old = old
or_keep (some v) _ = some v

-- one round of the loop over the intents
pub note_kind : IntentKind → Intent → Lot → Lot
unfolding record_tp_rung
note_kind enter i lot = record lot {
  pending_stop = or_keep i.stop_price lot.pending_stop;
  pending_original_qty = or_keep i.qty lot.pending_original_qty;
}
note_kind trim i lot = if starts_with i.reason "take_profit" then record_tp_rung lot else lot
note_kind _ i lot = lot

unfoldable pub note_intent : Lot → Intent → Lot
unfolding note_kind
note_intent lot i = note_kind i.kind i lot

pub context : Snapshot → ℕ → Lot → StrategyContext
context snapshot equity lot = record {
  snapshot = snapshot;
  state = lot.state;
  qty = lot.qty;
  avg_entry = lot.avg_entry;
  peak_price = if ltb 0 lot.peak_price then lot.peak_price else snapshot.close;
  bars_held = lot.bars_held;
  equity = equity;
  initial_stop = lot.initial_stop;
  original_qty = lot.original_qty;
  tp_rungs_taken = lot.tp_rungs_taken;
}

unfoldable pub evaluate : Strategy → Snapshot → ℕ → Lot → Lot × List Intent
unfolding note_intent context
evaluate strategy snapshot equity lot =
    ite (Resolution-discrete snapshot.resolution lot.resolution)
      (if ltb snapshot.bar_count strategy.warmup_bars
        then (lot, hold_intent "warming_up" ∷ [])
        else let intents = strategy.decide (context snapshot equity lot) in
          (foldl note_intent lot intents, intents))
      (lot, hold_intent "resolution_mismatch" ∷ [])

-- The arguments of `apply_fill`.
pub record LotFill : Type 0 where
  pub side : Side
  pub qty : ℕ
  pub price : ℕ
  pub fee : ℕ
  pub tax : ℕ
  pub is_add : Bool

module _ (quot : ℕ → ℕ → ℕ) where
  -- the average entry price after a purchase
  unfoldable pub blended : ℕ → ℕ → ℕ → ℕ → ℕ
  blended avg held qty price =
      if ltb 0 (held + qty) then quot (avg * held + price * qty) (held + qty) else avg

-- the first purchase: the entry settings take effect
opened : ℕ → ℕ → Lot → Lot
opened qty price lot = record lot {
  peak_price = if ltb 0 lot.peak_price then lot.peak_price else price;
  initial_stop = or_keep lot.pending_stop lot.initial_stop;
  original_qty = or_else lot.pending_original_qty qty;
}

buy_transition : PositionState → LotFill → Lot → Outcome
unfolding transition_to reopen_orphan opened
buy_transition closed f lot = (reopen_orphan lot, none)
buy_transition watching f lot =
    and_then (transition_to holding lot) λ lot'. (opened f.qty f.price lot', none)
buy_transition holding f lot = if f.is_add then transition_to scaling lot else (lot, none)
buy_transition _ f lot = (lot, none)

module _ (quot : ℕ → ℕ → ℕ) where
  apply_buy : LotFill → Lot → Outcome
  unfolding blended buy_transition
  apply_buy f lot = buy_transition lot.state f (record lot {
    avg_entry = blended quot lot.avg_entry lot.qty f.qty f.price;
    qty = lot.qty + f.qty;
  })

-- the part of a sale that closes held shares, and what it earns
unfoldable pub realized_of : ℕ → ℕ → ℕ
realized_of qty held = if ltb 0 held then min qty held else 0

unfoldable pub sale_pnl : ℕ → ℕ → ℕ → ℕ → ℕ → ℤ
sale_pnl price avg realized fee tax = sub_ℕ price avg *ℤ realized -ℤ pos fee -ℤ pos tax

apply_sell : LotFill → Lot → Outcome
unfolding transition_to realized_of sale_pnl
apply_sell f lot =
    let lot' : Lot = record lot {
      realized_pnl =
          lot.realized_pnl
          +ℤ sale_pnl f.price lot.avg_entry (realized_of f.qty lot.qty) f.fee f.tax;
      qty = lot.qty - f.qty;
    } in
    if lot'.qty == 0 then transition_to closed lot' else (lot', none)

dispatch_fill : (ℕ → ℕ → ℕ) → Side → LotFill → Lot → Outcome
unfolding apply_buy apply_sell
dispatch_fill quot buy f lot = apply_buy quot f lot
dispatch_fill quot sell f lot = apply_sell f lot

unfoldable pub apply_fill : (ℕ → ℕ → ℕ) → LotFill → Lot → Outcome
unfolding dispatch_fill
apply_fill quot f lot = dispatch_fill quot f.side f lot
