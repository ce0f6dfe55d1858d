-- ===== src/App/Service/Polling.antt =====
-- short_trading_bot/app/service.py: `_refresh_fills`, a poll whose handler is `_on_fill`, and what it
-- clears. What the broker answers, with the mark that the answer is complete, is a function of the
-- state at the call, and `none` is an exception. It is the answer of a broker that has just been told
-- to read abroad again (`resume_overseas_reads`), which is a call outside of this state.
pub mod Agreement
use short_trading_bot.Base.{
  ℕ, Bool, true, false, not, Option, none, some, List, [], ◌∷◌, map, leb, if◌then◌else◌, contains,
  keep_if,
}
use short_trading_bot.Domain.Enums.{is_overseas}
use short_trading_bot.Execution.Types.{Execution}
use short_trading_bot.Execution.Fx.{FxRates}
use short_trading_bot.Execution.FillPoller.{Applied, resolve, delta_fill}
use short_trading_bot.App.Service.State.{World, tracked_lots}
use short_trading_bot.App.Service.Handler.{on_fill}

-- the ids of the tracked lots whose market is abroad
unfoldable pub overseas_lots : World → List ℕ
unfolding tracked_lots
overseas_lots w = map (λ lot. lot.lot_id) (keep_if (λ lot. is_overseas lot.market) (tracked_lots w))

-- `xs &= ys`
abbrev pub within : List ℕ → List ℕ → List ℕ
within xs ys = keep_if (λ k. contains k ys) xs

-- after a poll of an answer that lacks the leg abroad
unfoldable pub keep_overseas : World → World
unfolding overseas_lots
keep_overseas w = record w {
  refresh_before_sell = within w.refresh_before_sell (overseas_lots w);
  unconfirmed_buy_cancels = within w.unconfirmed_buy_cancels (overseas_lots w);
}

-- after a poll of a complete answer
unfoldable pub clear_barriers : World → World
clear_barriers w = record w {
  refresh_before_sell = [];
  unconfirmed_buy_cancels = [];
  startup_refresh_pending = false;
}

-- `lot is not None and lot.lot_id not in overseas`
abbrev pub is_domestic : Option ℕ → List ℕ → Bool
is_domestic none ids = false
is_domestic (some id) ids = not (contains id ids)

module _ (autoflush : Bool) (quot : ℕ → ℕ → ℕ) (rates : FxRates) (now : ℕ) (day : Option ℕ) where
  abbrev mark_seen : ℕ → World → World
  mark_seen id w = record w { seen = id ∷ w.seen }

  abbrev marked : ℕ → World × Bool → World × Bool
  marked id (w, raised) = if raised then (w, true) else (mark_seen id w, false)

  deliver_fill : Execution → Applied → World → World × Bool
  unfolding on_fill delta_fill
  deliver_fill ex r w =
      if leb ex.qty r.qty
      then (mark_seen ex.exec_id w, false)
      else marked ex.exec_id (on_fill autoflush quot rates now (delta_fill quot day ex r) w)

  -- one round of the loop of `_poll_locked`
  unfoldable pub poll_one : Execution → World → World × Bool
  unfolding deliver_fill resolve
  poll_one ex w =
      if contains ex.exec_id w.seen
      then (w, false)
      else elim (resolve now day ex.broker_order_no w.store) [
        | none ↦ (w, false)
        | some r ↦ deliver_fill ex r w
      ]

  unfoldable pub poll_all : List Execution → World → World × Bool
  unfolding poll_one
  poll_all [] w = (w, false)
  poll_all (ex ∷ exs) w =
      let done = poll_one ex w in let rest = poll_all exs done.0 in if done.1 then done else rest

-- what `_refresh_fills` does when the poll has ended
unfoldable pub refreshed : Option ℕ → Bool → World × Bool → World × Bool
unfolding keep_overseas clear_barriers
refreshed lot complete (w, raised) =
    if raised
    then (w, false)
    else if not complete
    then (keep_overseas w, is_domestic lot (overseas_lots w))
    else (clear_barriers w, true)

abbrev pub Answer : Type 0
Answer = Option (List Execution × Bool)

module _ (autoflush : Bool) (quot : ℕ → ℕ → ℕ) (rates : FxRates) (now : ℕ) where
  abbrev pub refresh_with : Option ℕ → Answer → World → World × Bool
  refresh_with lot none w = (w, false)
  refresh_with lot (some (exs, complete)) w =
      refreshed lot complete (poll_all autoflush quot rates now none exs w)

  -- `_refresh_fills`
  unfoldable pub refresh_fills : (World → Answer) → Option ℕ → World → World × Bool
  unfolding refreshed poll_all
  refresh_fills answer lot w = refresh_with lot (answer w) w
