-- ===== src/Domain/Position/Machine.antt =====
-- Every call that changes a lot, the state diagram that the calls follow, and what no sequence of
-- calls can break. A call that raises is caught by the caller, which keeps the lot.
use short_trading_bot.Base.{ℕ, ◌<◌, ◌≡◌, refl, ◌∙◌, true, Option, none, List, [], ◌∷◌, arith}
use mathlib.Core.List.{foldl}
use short_trading_bot.Domain.Enums.{buy, PositionState, watching, holding, closed, cancelled}
use short_trading_bot.Domain.Signal.{Intent}
use short_trading_bot.Domain.Position
use short_trading_bot.Domain.Position.{
  Lot, LotFill, Outcome, Snapshot, Strategy, allowed, note_intent,
}

-- every public method that changes a lot, with its arguments
pub data Call : Type 0 where
  transition : PositionState → Call
  begin_exit mark_error reopen_orphan record_tp_rung : Call
  recover : PositionState → Call
  restore_pending_entry : Option ℕ → Option ℕ → Call
  on_bar rebase_entry_qty : ℕ → Call
  evaluate : Strategy → Snapshot → ℕ → Call
  apply_fill : LotFill → Call

-- The loop over the intents touches only the entry settings and the ladder.
pub notes_keep :
    (is : List Intent) (lot : Lot)
    → let lot' = foldl note_intent lot is in
      (lot'.state ≡ lot.state)
      × (lot'.qty ≡ lot.qty)
      × (lot'.avg_entry ≡ lot.avg_entry)
      × (lot'.realized_pnl ≡ lot.realized_pnl)
unfolding note_intent
notes_keep [] lot = (refl, refl, refl, refl)
notes_keep (i ∷ is) lot = ground (arith, notes_keep is (note_intent lot i))

pub evaluate_keep :
    (d : Strategy) (s : Snapshot) (e : ℕ) (lot : Lot)
    → let lot' = (Position.evaluate d s e lot).0 in
      (lot'.state ≡ lot.state)
      × (lot'.qty ≡ lot.qty)
      × (lot'.avg_entry ≡ lot.avg_entry)
      × (lot'.realized_pnl ≡ lot.realized_pnl)
unfolding Position.evaluate
evaluate_keep d s e lot = ground (arith, notes_keep (d.decide (Position.context s e lot)) lot)

module _ (quot : ℕ → ℕ → ℕ) where
  unfoldable pub perform : Call → Lot → Outcome
  perform (Call.transition s) lot = Position.transition_to s lot
  perform Call.begin_exit lot = Position.begin_exit lot
  perform Call.mark_error lot = Position.mark_error lot
  perform Call.reopen_orphan lot = (Position.reopen_orphan lot, none)
  perform Call.record_tp_rung lot = (Position.record_tp_rung lot, none)
  perform (Call.recover s) lot = Position.recover s lot
  perform (Call.restore_pending_entry a b) lot = (Position.restore_pending_entry a b lot, none)
  perform (Call.on_bar h) lot = (Position.on_bar h lot, none)
  perform (Call.rebase_entry_qty q) lot = (Position.rebase_entry_qty q lot, none)
  perform (Call.evaluate d s e) lot = ((Position.evaluate d s e lot).0, none)
  perform (Call.apply_fill f) lot = Position.apply_fill quot f lot

  unfoldable pub perform_all : List Call → Lot → Lot
  perform_all [] lot = lot
  perform_all (c ∷ cs) lot = perform_all cs (perform c lot).0

-- No shares are held by a lot that is closed or that waits for its entry.
pub record IsSound (lot : Lot) : Type 0 where
  pub closed_flat : lot.state ≡ closed → lot.qty ≡ 0
  pub watching_flat : lot.state ≡ watching → lot.qty ≡ 0

module _ (quot : ℕ → ℕ → ℕ) where
  apply_fill-IsSound :
      (f : LotFill) (lot : Lot) → IsSound lot → IsSound (Position.apply_fill quot f lot).0
  unfolding Position.apply_fill
  apply_fill-IsSound f lot h = ground arith

  pub perform-IsSound : (c : Call) (lot : Lot) → IsSound lot → IsSound (perform quot c lot).0
  unfolding perform Position.transition_to Position.begin_exit Position.mark_error Position.recover
      Position.reopen_orphan Position.record_tp_rung Position.restore_pending_entry Position.on_bar
      Position.rebase_entry_qty
  perform-IsSound (Call.evaluate d s e) lot h = ground (arith, evaluate_keep d s e lot)
  perform-IsSound (Call.apply_fill f) lot h = apply_fill-IsSound f lot h
  perform-IsSound _ lot h = ground arith

  pub perform_all-IsSound :
      (cs : List Call) (lot : Lot) → IsSound lot → IsSound (perform_all quot cs lot)
  unfolding perform_all
  perform_all-IsSound [] lot h = h
  perform_all-IsSound (c ∷ cs) lot h =
      perform_all-IsSound cs (perform quot c lot).0 (perform-IsSound c lot h)

-- One edge of the diagram: stay, an edge of the table, or the reopening of a closed lot that shares
-- came back to.
pub data Edge (s t : PositionState) (qty : ℕ) : Type 0 where
  stay : t ≡ s → Edge s t qty
  follow : allowed s t ≡ true → Edge s t qty
  reopen : s ≡ closed → t ≡ holding → 0 < qty → Edge s t qty

module _ (quot : ℕ → ℕ → ℕ) where
  apply_fill-Edge :
      (f : LotFill) (lot : Lot)
      → let lot' = (Position.apply_fill quot f lot).0 in Edge lot.state lot'.state lot'.qty
  unfolding Position.apply_fill
  apply_fill-Edge f lot = grind (arith, stay, follow, reopen)

  pub perform-Edge :
      (c : Call) (lot : Lot)
      → let lot' = (perform quot c lot).0 in Edge lot.state lot'.state lot'.qty
  unfolding perform Position.transition_to Position.begin_exit Position.mark_error Position.recover
      Position.reopen_orphan Position.record_tp_rung Position.restore_pending_entry Position.on_bar
      Position.rebase_entry_qty
  perform-Edge (Call.evaluate d s e) lot = stay (evaluate_keep d s e lot).0
  perform-Edge (Call.apply_fill f) lot = apply_fill-Edge f lot
  perform-Edge (Call.on_bar h) lot = grind (arith, stay, follow, reopen)
  perform-Edge _ lot = grind (arith, stay, follow, reopen)

  Edge-cancelled : {s t : PositionState} {q : ℕ} → s ≡ cancelled → Edge s t q → t ≡ cancelled
  unfolding allowed
  Edge-cancelled e (stay h) = h ∙ e
  Edge-cancelled e (follow h) = ground arith
  Edge-cancelled e (reopen h k p) = cc

  -- A cancelled lot stays cancelled, whatever is called.
  pub perform_all-cancelled :
      (cs : List Call) (lot : Lot)
      → lot.state ≡ cancelled
      → (perform_all quot cs lot).state ≡ cancelled
  unfolding perform_all
  perform_all-cancelled [] lot h = h
  perform_all-cancelled (c ∷ cs) lot h =
      perform_all-cancelled cs (perform quot c lot).0 (Edge-cancelled h (perform-Edge c lot))

  -- A purchase that reaches a cancelled lot gives it shares, and no later call opens the lot.
  pub cancelled_orphan :
      (f : LotFill) (cs : List Call) (lot : Lot)
      → f.side ≡ buy
      → 0 < f.qty
      → lot.state ≡ cancelled
      → let lot' = (Position.apply_fill quot f lot).0 in
        (0 < lot'.qty) × ((perform_all quot cs lot').state ≡ cancelled)
  unfolding Position.apply_fill
  cancelled_orphan f cs lot s p c =
      (ground arith, perform_all-cancelled cs (Position.apply_fill quot f lot).0 (ground arith))
