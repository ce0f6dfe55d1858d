-- ===== src/App/Service/State.antt =====
-- short_trading_bot/app/service.py: the state of `TradingService`. An object that several tables refer
-- to, a lot, is in one table, `lots`, and the others hold its lot_id.
pub mod Flat
use short_trading_bot.Base.{
  ℕ, ◌+◌, Bool, true, false, not, ◌&&◌, ◌||◌, Option, none, some, List, [], ◌∷◌, ◌++◌, map, ltb,
  ◌==◌, if◌then◌else◌, contains, keep_if, find_by, update_by, is_some,
}
use short_trading_bot.Base.Int.{ℤ}
use short_trading_bot.Domain.Enums.{
  Side, is_buy, Resolution, Resolution-discrete, OrderState, filled, rejected, cancelled, expired,
}
use short_trading_bot.Domain.Position.{Lot}
use short_trading_bot.Execution.Store.{Store}
use short_trading_bot.Risk.Control.{ControlSwitch}

-- `_PendingOrder`
pub record PendingOrder : Type 0 where
  pub lot_id : ℕ
  pub side : Side
  pub is_add : Bool
  pub requested_qty : ℕ
  pub filled_qty : ℕ
  pub price : ℕ

-- The key (lot_id, side) of `_pending`.
abbrev pub lock_key : ℕ → Side → ℕ
lock_key lot_id side = lot_id + lot_id + (if is_buy side then 0 else 1)

-- `_lots` is `slots`, by ticker and resolution; `_lots_by_id` is `lots`; `_co_map` is `metas`;
-- `seen` is the `_seen` of the fill poller.
pub record World : Type 0 where
  pub lots : List Lot
  pub slots : List ((ℕ × Resolution) × ℕ)
  pub pending : List (ℕ × ℕ)
  pub metas : List (ℕ × PendingOrder)
  pub refresh_before_sell : List ℕ
  pub unconfirmed_buy_cancels : List ℕ
  pub startup_refresh_pending : Bool
  pub seen : List ℕ
  pub last_price : List (ℕ × ℕ)
  pub cash_cache : Option ℤ
  pub equity_stale : Bool
  pub daily_realized : ℤ
  pub daily_date : Option ℕ
  pub peak_equity : ℤ
  pub control : ControlSwitch
  pub store : Store

abbrev pub lot_key : Lot → ℕ
lot_key lot = lot.lot_id

abbrev pub find_lot : ℕ → List Lot → Option Lot
find_lot = find_by lot_key

-- an assignment to the object of a lot
abbrev pub set_lot : Lot → World → World
set_lot lot w = record w { lots = update_by lot_key lot.lot_id (λ _. lot) w.lots }

-- `_TERMINAL_ORDER_STATES`
unfoldable pub is_final : OrderState → Bool
is_final filled = true
is_final rejected = true
is_final cancelled = true
is_final expired = true
is_final _ = false

-- `x.discard(key)`, `x.add(key)`
abbrev pub add_to : ℕ → List ℕ → List ℕ
add_to k xs = if contains k xs then xs else k ∷ xs

abbrev pub same_slot : ℕ × Resolution → ℕ × Resolution → Bool
same_slot a b = a.0 == b.0 && elim (Resolution-discrete a.1 b.1) [ yes _ ↦ true | no _ ↦ false ]

-- `_lots.get(key)` and `_lots[key] = lot`
unfoldable pub slot_of : ℕ × Resolution → List ((ℕ × Resolution) × ℕ) → Option ℕ
slot_of key [] = none
slot_of key ((k, id) ∷ d) = let rest = slot_of key d in if same_slot k key then some id else rest

unfoldable pub put_slot :
    ℕ × Resolution → ℕ → List ((ℕ × Resolution) × ℕ) → List ((ℕ × Resolution) × ℕ)
put_slot key id [] = (key, id) ∷ []
put_slot key id ((k, j) ∷ d) =
    let rest = put_slot key id d in if same_slot k key then (k, id) ∷ d else (k, j) ∷ rest

-- the lots of the slots, in their order
unfoldable pub slot_lots : List ((ℕ × Resolution) × ℕ) → List Lot → List Lot
slot_lots [] lots = []
slot_lots ((_, id) ∷ d) lots =
    let rest = slot_lots d lots in elim (find_lot id lots) [ none ↦ rest | some lot ↦ lot ∷ rest ]

-- `_tracked_lots`
unfoldable pub tracked_lots : World → List Lot
unfolding slot_lots
tracked_lots w =
    slot_lots w.slots w.lots
    ++ keep_if (λ lot. not (contains lot.lot_id (map (λ s. s.1) w.slots))) w.lots

unfoldable pub any_held : List Lot → Bool
any_held [] = false
any_held (lot ∷ lots) = ltb 0 lot.qty || any_held lots

abbrev pub is_empty {ℓ} : {A : Type ℓ} → List A → Bool
is_empty [] = true
is_empty (_ ∷ _) = false

-- `is_flat`
unfoldable pub is_flat : World → Bool
unfolding tracked_lots any_held
is_flat w =
    not (any_held (tracked_lots w))
    && is_empty w.pending
    && is_empty w.unconfirmed_buy_cancels
    && not w.startup_refresh_pending

-- `_lots_by_id[lot.lot_id] = lot`
abbrev pub put_lot : Lot → World → World
put_lot lot w =
    if is_some (find_lot lot.lot_id w.lots)
    then set_lot lot w
    else record w { lots = w.lots ++ lot ∷ [] }
