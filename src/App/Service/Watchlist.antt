-- ===== src/App/Service/Watchlist.antt =====
-- short_trading_bot/app/service.py: the templates by ticker, the lots that they are run on, and the
-- tickers whose prices are asked for. `_watchlist`, which is only written, is left out. Two templates
-- are the same when their fields are equal. The factory's check of a template and the id of a new lot
-- are arguments.
pub mod Uniqueness
pub mod Subscriptions
use short_trading_bot.Base.{
  ℕ, Bool, true, false, not, ◌&&◌, ◌||◌, Option, none, some, List, [], ◌∷◌, ◌++◌, map, ltb, ◌==◌,
  if◌then◌else◌, is_some, keep_if, update_by, or_else, get_at, put,
}
use short_trading_bot.Base.Int.{pos}
use short_trading_bot.Domain.Enums.{
  Resolution, Resolution-discrete, Market, Market-discrete, currency, buy, sell, watching,
  cancelled,
}
use short_trading_bot.Domain.Position.{Lot, Illegal, transition_to, is_terminal}
use short_trading_bot.Execution.Store.{PositionRow, known, position_key}
use short_trading_bot.Execution.OrderManager.{Ended, returned, raised}
use short_trading_bot.App.Service.State.{
  World, lock_key, find_lot, set_lot, put_lot, same_slot, slot_of, put_slot, slot_lots,
  tracked_lots,
}
use short_trading_bot.App.Service.Restore.{is_watching}
use short_trading_bot.App.Service.Handler.{retire_row}

-- `StrategyTemplate`; `settings` stands for the fields that the service only hands on
pub record Template : Type 0 where
  pub strategy_id : ℕ
  pub resolution : Resolution
  pub market : Market
  pub regime_filter : Bool
  pub settings : ℕ

abbrev pub SlotKey : Type 0
SlotKey = ℕ × Resolution

-- `_by_ticker`, `_one_shot` with the day of the first bar, and `_regime_gated`
pub record Watch : Type 0 where
  pub by_ticker : List (ℕ × List Template)
  pub one_shot : List (SlotKey × Option ℕ)
  pub regime_gated : List SlotKey

abbrev pub same_resolution : Resolution → Resolution → Bool
same_resolution a b = elim (Resolution-discrete a b) [ yes _ ↦ true | no _ ↦ false ]

abbrev pub same_template : Template → Template → Bool
same_template a b =
    a.strategy_id == b.strategy_id
    && same_resolution a.resolution b.resolution
    && elim (Market-discrete a.market b.market) [ yes _ ↦ true | no _ ↦ false ]
    && (if a.regime_filter then b.regime_filter else not b.regime_filter)
    && a.settings == b.settings

-- the first of the templates with the resolution
abbrev pub first_with : Resolution → List Template → Option Template
first_with r [] = none
first_with r (t ∷ ts) = if same_resolution t.resolution r then some t else first_with r ts

abbrev pub templates_of : ℕ → Watch → List Template
templates_of ticker watch = or_else (get_at ticker watch.by_ticker) []

-- a dictionary by ticker and resolution
abbrev pub look {ℓ} : {A : Type ℓ} → SlotKey → List (SlotKey × A) → Option A
look key [] = none
look key ((k, x) ∷ d) = if same_slot k key then some x else look key d

abbrev pub without {ℓ} : {A : Type ℓ} → SlotKey → List (SlotKey × A) → List (SlotKey × A)
without key [] = []
without key ((k, x) ∷ d) =
    let rest = without key d in if same_slot k key then rest else (k, x) ∷ rest

abbrev pub assigned {ℓ} : {A : Type ℓ} → SlotKey → A → List (SlotKey × A) → List (SlotKey × A)
assigned key x [] = (key, x) ∷ []
assigned key x ((k, y) ∷ d) =
    let rest = assigned key x d in if same_slot k key then (k, x) ∷ d else (k, y) ∷ rest

abbrev is_gated : SlotKey → List SlotKey → Bool
is_gated key [] = false
is_gated key (k ∷ ks) = same_slot k key || is_gated key ks

abbrev pub with_template : ℕ → Template → Bool → Watch → Watch
with_template ticker t one_shot watch = record {
  by_ticker = put ticker (templates_of ticker watch ++ t ∷ []) watch.by_ticker;
  one_shot =
      if one_shot then assigned (ticker, t.resolution) none watch.one_shot else watch.one_shot;
  regime_gated =
      if t.regime_filter && not (is_gated (ticker, t.resolution) watch.regime_gated)
      then (ticker, t.resolution) ∷ watch.regime_gated
      else watch.regime_gated;
}

-- `add_template`
unfoldable pub add_template : ℕ → Template → Bool → Watch → Watch × Bool
unfolding get_at put
add_template ticker t one_shot watch =
    if is_some (first_with t.resolution (templates_of ticker watch))
    then (watch, false)
    else (with_template ticker t one_shot watch, true)

-- `templates.remove(template)`
unfoldable pub remove_first : Template → List Template → List Template
remove_first t [] = []
remove_first t (s ∷ ts) = let rest = remove_first t ts in if same_template s t then ts else s ∷ rest

-- `_remove_template`
unfoldable pub remove_template : ℕ → Template → Watch → Watch
unfolding remove_first get_at put
remove_template ticker t watch = record watch {
  by_ticker =
      if is_some (get_at ticker watch.by_ticker)
      then put ticker (remove_first t (templates_of ticker watch)) watch.by_ticker
      else watch.by_ticker;
  one_shot = without (ticker, t.resolution) watch.one_shot;
}

-- the tickers that have a template
abbrev pub with_templates : List (ℕ × List Template) → List ℕ
with_templates [] = []
with_templates ((k, []) ∷ d) = with_templates d
with_templates ((k, t ∷ ts) ∷ d) = k ∷ with_templates d

abbrev pub ticker_of : Lot → ℕ
ticker_of lot = lot.ticker

-- held, or with an order under way
unfoldable pub needs_prices : World → Lot → Bool
unfolding get_at
needs_prices w lot =
    ltb 0 lot.qty
    || is_some (get_at (lock_key lot.lot_id buy) w.pending)
    || is_some (get_at (lock_key lot.lot_id sell) w.pending)

-- `tracked_tickers`, a set as a list
unfoldable pub tracked_tickers : Watch → World → List ℕ
unfolding slot_lots tracked_lots needs_prices
tracked_tickers watch w =
    with_templates watch.by_ticker
    ++ (map ticker_of (slot_lots w.slots w.lots)
        ++ map ticker_of (keep_if (needs_prices w) (tracked_lots w)))

abbrev pub fresh_lot : ℕ → ℕ → Template → Lot
fresh_lot id ticker t = record {
  lot_id = id;
  ticker = ticker;
  market = t.market;
  currency = currency t.market;
  resolution = t.resolution;
  state = watching;
  qty = 0;
  avg_entry = 0;
  realized_pnl = pos 0;
  peak_price = 0;
  bars_held = 0;
  initial_stop = none;
  original_qty = 0;
  tp_rungs_taken = 0;
  pending_stop = none;
  pending_original_qty = none;
}

abbrev fresh_row : Lot → PositionRow
fresh_row lot = record {
  lot_id = lot.lot_id;
  ticker = lot.ticker;
  market = known lot.market;
  currency = lot.currency;
  resolution = lot.resolution;
  state = lot.state;
  qty_filled = 0;
  avg_entry_price = 0;
  realized_pnl = pos 0;
  initial_stop = 0;
  peak_price = 0;
  tp_rungs_taken = 0;
  original_qty = 0;
  closed_at = none;
}

-- `_spawn`, with a template that the factory takes
unfoldable pub spawn : ℕ → ℕ → Template → World → World
unfolding put_slot
spawn id ticker t w =
    let lot = fresh_lot id ticker t in
    let w' = put_lot lot (record w { slots = put_slot (ticker, t.resolution) id w.slots }) in
    record w' { store = record w'.store { positions = w'.store.positions ++ fresh_row lot ∷ [] } }

abbrev pub Slots : Type 0
Slots = World × Watch

-- the lot to be managed with the bar, if there is one
abbrev pub Routed : Type 0
Routed = Slots × Ended (Option Lot)

abbrev retired : ℕ → Template → Lot × Option Illegal → Slots → Routed
retired now t (lot, some e) (w, watch) = ((set_lot lot w, watch), raised)
retired now t (lot, none) (w, watch) =
    let w' = set_lot lot w in
    (
      (
        record w' {
          slots = without (lot.ticker, lot.resolution) w'.slots;
          store = record w'.store {
            positions =
                update_by position_key lot.lot_id (retire_row now lot.state) w'.store.positions;
          };
        },
        remove_template lot.ticker t watch,
      ),
      returned none,
    )

-- `_expire_scan_lot`
unfoldable pub expire_scan_lot : ℕ → Lot → Template → Slots → Routed
unfolding transition_to retire_row remove_template
expire_scan_lot now lot t s = retired now t (transition_to cancelled lot) s

abbrev spawned : Bool → ℕ → ℕ → Template → Slots → Routed
spawned takes id ticker t (w, watch) =
    if takes
    then ((spawn id ticker t w, watch), returned (some (fresh_lot id ticker t)))
    else ((w, watch), raised)

abbrev pub has_ended : Option Lot → Bool
has_ended none = false
has_ended (some lot) = is_terminal lot.state

abbrev respawned : Bool → ℕ → ℕ → Template → Option Lot → Slots → Routed
respawned takes id ticker t none s = spawned takes id ticker t s
respawned takes id ticker t (some lot) s =
    if is_terminal lot.state then spawned takes id ticker t s else (s, returned (some lot))

-- a template that joined for one round is not used for a second lot
abbrev pub settled : Bool → ℕ → ℕ → Template → Option Lot → Slots → Routed
settled takes id ticker t lot (w, watch) =
    if has_ended lot && is_some (look (ticker, t.resolution) watch.one_shot)
    then ((w, remove_template ticker t watch), returned lot)
    else respawned takes id ticker t lot (w, watch)

-- a lot that has not entered by the end of the day on which its template joined
abbrev is_stale : ℕ → ℕ → Option Lot → Bool
is_stale day join_day none = false
is_stale day join_day (some lot) = is_watching lot.state && lot.qty == 0 && ltb join_day day

abbrev expired_or : ℕ → Bool → ℕ → ℕ → Template → Option Lot → Slots → Routed
expired_or now takes id ticker t none s = settled takes id ticker t none s
expired_or now takes id ticker t (some lot) s = expire_scan_lot now lot t s

abbrev dated : ℕ → ℕ → Bool → ℕ → ℕ → Template → Option Lot → Option (Option ℕ) → Slots → Routed
dated now day takes id ticker t lot none s = settled takes id ticker t lot s
dated now day takes id ticker t lot (some none) (w, watch) =
    settled takes id ticker t lot
      (w, record watch { one_shot = assigned (ticker, t.resolution) (some day) watch.one_shot })
dated now day takes id ticker t lot (some (some join_day)) s =
    if is_stale day join_day lot
    then expired_or now takes id ticker t lot s
    else settled takes id ticker t lot s

abbrev pub slot_lot : SlotKey → World → Option Lot
slot_lot key w = elim (slot_of key w.slots) [ none ↦ none | some id ↦ find_lot id w.lots ]

abbrev routed : ℕ → ℕ → Bool → ℕ → ℕ → Option Lot → Option Template → Slots → Routed
routed now day takes id ticker lot none s = (s, returned lot)
routed now day takes id ticker lot (some t) (w, watch) =
    dated now day takes id ticker t lot (look (ticker, t.resolution) watch.one_shot) (w, watch)

-- The part of `process` from the choice of the template to the lot that the bar is for.
unfoldable pub route_bar : ℕ → ℕ → (Template → Bool) → ℕ → ℕ → Resolution → Slots → Routed
unfolding slot_of expire_scan_lot spawn remove_template
route_bar now day takes id ticker r (w, watch) =
    let t = first_with r (templates_of ticker watch) in
    routed now day (elim t [ none ↦ false | some x ↦ takes x ]) id ticker (slot_lot (ticker, r) w) t
      (w, watch)
