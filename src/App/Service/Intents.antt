-- ===== src/App/Service/Intents.antt =====
-- short_trading_bot/app/service.py: `_handle_intent`, `_flat_all` and the kill switch of `process`.
-- Whether the market filter stops entries of a lot is an argument, and so is the number of units of
-- quantity in one share.
use text.Mathlib.Text.{starts_with}
use short_trading_bot.Base.{
  ℕ, ◌-◌, ◌*◌, ◌/◌, min, Bool, true, false, not, ◌&&◌, ◌||◌, Option, none, some, List, [], ◌∷◌, ltb,
  leb, ◌==◌, if◌then◌else◌, get_at, update_by,
}
use short_trading_bot.Base.Int.{ℤ, pos, pos_part}
use short_trading_bot.Domain.Enums.{buy, sell, is_overseas}
use short_trading_bot.Domain.Signal.{Intent, IntentKind}
use short_trading_bot.Domain.Position.{Lot, is_open, rebase_entry_qty}
use short_trading_bot.Execution.TickSize.{round_to_tick}
use short_trading_bot.Execution.OrderManager.{returned}
use short_trading_bot.Execution.Fx.{is_krw, rate}
use short_trading_bot.Risk.Manager.{
  RiskLimits, RiskSnapshot, RiskDecision, allow, block, is_entry, check,
}
use short_trading_bot.Risk.Control.{clear_flat_all}
use short_trading_bot.App.Service.State.{
  World, PendingOrder, lock_key, lot_key, find_lot, set_lot, tracked_lots, is_flat, is_empty,
}
use short_trading_bot.App.Service.Books.{cap_entry_qty, price_of}
use short_trading_bot.App.Service.Polling.{refresh_fills}
use short_trading_bot.App.Service.Orders.{
  Outside, Run, and_then, release_if_terminal, cancel_open_buy, submit, limit_price, qty_now,
}

-- The settings that an intent is treated with.
pub record Settings : Type 0 where
  pub limits : RiskLimits
  pub entries_blocked : Lot → Bool
  pub share : ℕ

abbrev is_exit : IntentKind → Bool
is_exit IntentKind.exit = true
is_exit _ = false

abbrev is_enter : IntentKind → Bool
is_enter IntentKind.enter = true
is_enter _ = false

abbrev is_trim : IntentKind → Bool
is_trim IntentKind.trim = true
is_trim _ = false

-- a part of the position, in whole shares at home
unfoldable pub fraction_qty : ℕ → (ℕ → ℕ → ℕ) → Lot → ℕ × ℕ → ℕ
fraction_qty share quot lot (num, den) =
    min
      (if is_overseas lot.market
        then quot (lot.qty * num) den
        else lot.qty * num / (den * share) * share)
      lot.qty

abbrev qty_or_fraction : ℕ → (ℕ → ℕ → ℕ) → Lot → Option ℕ → Option (ℕ × ℕ) → ℕ
qty_or_fraction share quot lot (some qty) f = qty
qty_or_fraction share quot lot none none = 0
qty_or_fraction share quot lot none (some f) = fraction_qty share quot lot f

-- the quantity that an intent asks for; 0 stands for None, which is treated alike
unfoldable pub asked_qty : ℕ → (ℕ → ℕ → ℕ) → Lot → Intent → ℕ
unfolding fraction_qty
asked_qty share quot lot i =
    if is_exit i.kind then lot.qty else qty_or_fraction share quot lot i.qty i.fraction

-- the limit on an order, for `_cap_entry_qty`; below 0 it admits as little as at 0
abbrev order_cap : Option ℤ → Option ℕ
order_cap none = none
order_cap (some limit) = some (pos_part limit)

-- `lot.rebase_entry_qty(capped)`, for an entry that has been cut down
abbrev rebased : Bool → ℕ → Lot → World → World
rebased cut qty lot w = if cut then set_lot (rebase_entry_qty qty lot) w else w

abbrev drop_rung : Lot → Lot
drop_rung lot = record lot { tp_rungs_taken = lot.tp_rungs_taken - 1 }

-- a take-profit order that has not gone out gives its rung back
unfoldable pub give_rung_back : Lot → Intent → Bool → World → Run Unit
give_rung_back lot i submitted w =
    if not submitted && is_trim i.kind && starts_with i.reason "take_profit"
    then (record w { lots = update_by lot_key lot.lot_id drop_rung w.lots }, returned tt)
    else (w, returned tt)

module _ (env : Outside) (set : Settings) where
  abbrev order_of : Lot → Intent → ℕ → ℕ → World → Run Unit
  order_of lot i qty price w =
      if qty == 0
      then (w, returned tt)
      else and_then
          (submit env (is_exit i.kind) lot i.side qty price
            (elim i.kind [ IntentKind.add ↦ true | _ ↦ false ]) w)
          (give_rung_back lot i)

  abbrev gated : RiskDecision → Lot → Intent → ℕ → ℕ → World → Run Unit
  gated (block reason) lot i qty price w = (w, returned tt)
  gated allow lot i qty price w =
      if is_exit i.kind
      then and_then (cancel_open_buy env lot w) (λ _ w'. order_of lot i (qty_now lot w') price w')
      else order_of lot i qty price w

  -- `_handle_intent` from the risk check on
  unfoldable pub checked : RiskSnapshot → Lot → Intent → ℕ → ℕ → World → Run Unit
  unfolding check cancel_open_buy submit give_rung_back
  checked snapshot lot i qty price w =
      gated
        (check set.limits w.control i.kind lot.ticker
          (pos (price * qty * rate env.rates lot.currency)) snapshot)
        lot i qty price w

  abbrev entry_of : RiskSnapshot → Lot → Intent → ℕ → ℕ → World × Bool → Run Unit
  entry_of snapshot lot i qty price (w, free) =
      let q =
        cap_entry_qty set.share env.quot (order_cap set.limits.max_order_notional) lot qty price
          (rate env.rates lot.currency) in
      if not free || set.entries_blocked lot
      then (w, returned tt)
      else if q == 0
      then (rebased (ltb q qty && is_enter i.kind) q lot w, returned tt)
      else checked snapshot lot i q price (rebased (ltb q qty && is_enter i.kind) q lot w)

  abbrev at_price : RiskSnapshot → Lot → Intent → ℕ → ℕ → World → Run Unit
  at_price snapshot lot i qty price w =
      if is_entry i.kind
      then entry_of snapshot lot i qty price (release_if_terminal (lock_key lot.lot_id buy) w)
      else checked snapshot lot i qty price w

  -- `_handle_intent`, at the closing price of the bar
  unfoldable pub handle_intent : RiskSnapshot → Lot → Intent → ℕ → World → Run Unit
  unfolding asked_qty is_entry round_to_tick release_if_terminal cap_entry_qty checked rate
  handle_intent snapshot lot i close w =
      let qty = asked_qty set.share env.quot lot i in
      if qty == 0
      then (w, returned tt)
      else if not (is_krw lot.currency) && rate env.rates lot.currency == 0 && is_entry i.kind
      then (w, returned tt)
      else at_price snapshot lot i qty (limit_price lot i.side close) w

module _ (env : Outside) where
  -- every lock whose order is over is given up
  unfoldable pub release_all : List (ℕ × ℕ) → World → World
  unfolding release_if_terminal
  release_all [] w = w
  release_all ((key, _) ∷ locks) w = release_all locks (release_if_terminal key w).0

  abbrev covers : Option PendingOrder → ℕ → ℕ → Bool
  covers none price qty = false
  covers (some po) price qty = po.price == price && leb qty po.requested_qty

  abbrev working_at : Option ℕ → World → Option PendingOrder
  working_at none w = none
  working_at (some cid) w = get_at cid w.metas

  -- a sale at this price of all the shares is at work
  unfoldable pub is_working : Lot → ℕ → World → Bool
  unfolding get_at
  is_working lot price w =
      covers (working_at (get_at (lock_key lot.lot_id sell) w.pending) w) price lot.qty

  abbrev sell_off : Lot → World → Run Unit
  sell_off lot w =
      if not (is_open lot.state) || is_working lot (limit_price lot sell (price_of w lot)) w
      then (w, returned tt)
      else and_then (submit env true lot sell lot.qty (price_of w lot) false w)
          (λ _ w'. (w', returned tt))

  -- the lot as it is now, after a cancellation that may have taken fills in
  abbrev sell_now : ℕ → World → Run Unit
  sell_now id w = elim (find_lot id w.lots) [ none ↦ (w, returned tt) | some lot ↦ sell_off lot w ]

  -- one round of the loop over the lots
  unfoldable pub flat_lot : Lot → World → Run Unit
  unfolding cancel_open_buy submit is_working price_of round_to_tick is_open
  flat_lot lot w = and_then (cancel_open_buy env lot w) (λ _. sell_now lot.lot_id)

  unfoldable pub flat_lots : List Lot → World → Run Unit
  unfolding flat_lot
  flat_lots [] w = (w, returned tt)
  flat_lots (lot ∷ lots) w = and_then (flat_lot lot w) (λ _. flat_lots lots)

  -- `_flat_all`
  unfoldable pub flat_all : World → Run Unit
  unfolding release_all refresh_fills flat_lots tracked_lots
  flat_all w =
      let w1 = release_all w.pending w in
      let w2 =
        if not (is_empty w1.unconfirmed_buy_cancels) || w1.startup_refresh_pending
        then (refresh_fills env.autoflush env.quot env.rates env.now env.executions none w1).0
        else w1 in
      flat_lots (tracked_lots w2) w2

  abbrev clear_when_flat : World → Run Unit
  clear_when_flat w =
      if is_flat w
      then (record w { control = clear_flat_all w.control }, returned tt)
      else (w, returned tt)

  -- the part of `process` that carries out an emergency stop
  unfoldable pub obey_kill_switch : World → Run Unit
  unfolding flat_all is_flat clear_flat_all
  obey_kill_switch w =
      if w.control.flat_all_requested
      then and_then (flat_all w) (λ _. clear_when_flat)
      else (w, returned tt)
