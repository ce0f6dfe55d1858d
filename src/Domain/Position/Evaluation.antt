-- ===== src/Domain/Position/Evaluation.antt =====
-- When a lot asks its strategy, and what the answer changes.
use mathlib.Core.List.{foldl}
use short_trading_bot.Base.{
  ℕ, ◌+◌, ◌<◌, ◌≤◌, ◌≡◌, ◌≢◌, Bool, true, false, List, [], ◌∷◌, length, keep_if, arith, ◌&&◌,
}
use text.Mathlib.Text.{starts_with}
use short_trading_bot.Domain.Signal.{IntentKind, trim, Intent}
use short_trading_bot.Domain.Position.{
  Lot, Snapshot, Strategy, context, note_intent, hold_intent, evaluate,
}

-- the partial sales of a ladder
abbrev is_trim : IntentKind → Bool
is_trim trim = true
is_trim _ = false

abbrev pub is_rung : Intent → Bool
is_rung i = is_trim i.kind && starts_with i.reason "take_profit"

note_rungs :
    (i : Intent) (is : List Intent) (lot : Lot)
    → (note_intent lot i).tp_rungs_taken + length (keep_if is_rung is)
      ≡ lot.tp_rungs_taken + length (keep_if is_rung (i ∷ is))
unfolding note_intent
note_rungs i is lot = ground arith

notes_rungs :
    (is : List Intent) (lot : Lot)
    → (foldl note_intent lot is).tp_rungs_taken ≡ lot.tp_rungs_taken + length (keep_if is_rung is)
notes_rungs [] lot = omega arith
notes_rungs (i ∷ is) lot = omega (arith, notes_rungs is (note_intent lot i), note_rungs i is lot)

-- On bars of its own resolution, past the warm-up, the lot returns exactly what the strategy decides
-- on the lot's own figures, and its ladder moves by one rung for each take-profit sale among that.
-- On any other bar, and during the warm-up, the strategy is not asked and nothing changes.
pub evaluate_lem :
    (d : Strategy) (s : Snapshot) (equity : ℕ) (lot : Lot)
    → let (lot', is) = evaluate d s equity lot in
      (s.resolution ≢ lot.resolution → (lot' ≡ lot) × (is ≡ hold_intent "resolution_mismatch" ∷ []))
      × (s.resolution ≡ lot.resolution
          → s.bar_count < d.warmup_bars
          → (lot' ≡ lot) × (is ≡ hold_intent "warming_up" ∷ []))
      × (s.resolution ≡ lot.resolution
          → d.warmup_bars ≤ s.bar_count
          → (is ≡ d.decide (context s equity lot))
            × (lot'.tp_rungs_taken ≡ lot.tp_rungs_taken + length (keep_if is_rung is)))
unfolding evaluate
evaluate_lem d s equity lot = ground (arith, notes_rungs (d.decide (context s equity lot)) lot)
