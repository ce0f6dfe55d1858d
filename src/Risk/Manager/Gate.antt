-- ===== src/Risk/Manager/Gate.antt =====
-- When the gate lets an intent pass.
use short_trading_bot.Base.{
  ℕ, ◌+◌, ◌<◌, ◌≡◌, refl, ◌↔◌, ◌⊎◌, inl, inr, true, false, Option, none, some, List, [], ◌∷◌, map,
  keep_if, ap, All, or_else, arith, Bool-cases,
}
use short_trading_bot.Base.Int.{ℤ, pos, pos_part, neg_part, ◌+ℤ◌, ◌-ℤ◌, ◌*ℤ◌, ◌≤ℤ◌}
use short_trading_bot.Domain.Enums.{running}
use short_trading_bot.Domain.Signal.{Intent, IntentKind}
use short_trading_bot.Domain.Position.{Lot, is_open}
use short_trading_bot.Risk.Control.{ControlSwitch}
use short_trading_bot.Risk.Manager.{
  Ratio, RiskLimits, RiskSnapshot, is_entry, check, allow, build_flat_all_intents, flat_intent,
  breaks_daily_limit, breaks_daily_pct, breaks_drawdown, breaks_positions, breaks_notional,
  breaks_exposure,
}

infix 50 ◌<ℤ◌
abbrev pub ◌<ℤ◌ : ℤ → ℤ → Type 0
a <ℤ b = pos_part a + neg_part b < pos_part b + neg_part a

-- What a limit that is set asks for.
abbrev pub Limit {ℓ} : {A : Type ℓ} → Option A → (A → Type 0) → Type 0
Limit none P = Unit
Limit (some l) P = P l

-- Every limit that is set is respected by an entry of this amount; the share of the equity that may
-- be lost in a day counts while there is equity.
pub record Fits (limits : RiskLimits) (ticker : ℕ) (amount : ℤ) (s : RiskSnapshot) : Type 0 where
  pub daily : Limit limits.daily_loss_limit λ l. (pos 0 -ℤ l) <ℤ s.daily_pnl
  pub daily_share :
      Limit limits.daily_loss_pct
        λ r. (s.equity ≤ℤ pos 0) ⊎ ((pos 0 -ℤ s.equity *ℤ r.num) <ℤ (s.daily_pnl *ℤ r.den))
  pub drawdown :
      Limit limits.max_drawdown_pct
        λ r. Limit s.peak_equity λ peak. (peak *ℤ r.den -ℤ peak *ℤ r.num) <ℤ (s.equity *ℤ r.den)
  pub positions : Limit limits.max_open_positions λ l. s.open_positions < l
  pub order_size : Limit limits.max_order_notional λ l. amount ≤ℤ l
  pub exposure :
      Limit limits.max_ticker_exposure
        λ l. (or_else (s.ticker_exposure ticker) (pos 0) +ℤ amount) ≤ℤ l

module _ (s : RiskSnapshot) where
  daily_iff :
      (o : Option ℤ) → (breaks_daily_limit o s ≡ false) ↔ Limit o λ l. (pos 0 -ℤ l) <ℤ s.daily_pnl
  daily_iff none = ground arith
  daily_iff (some l) = ground arith

  share_iff :
      (o : Option Ratio)
      → (breaks_daily_pct o s ≡ false)
        ↔ Limit o
            λ r. (s.equity ≤ℤ pos 0) ⊎ ((pos 0 -ℤ s.equity *ℤ r.num) <ℤ (s.daily_pnl *ℤ r.den))
  share_iff none = ground arith
  share_iff (some r) = ground arith

  drawdown_iff :
      (o : Option Ratio) (p : Option ℤ)
      → (breaks_drawdown o p s ≡ false)
        ↔ Limit o λ r. Limit p λ peak. (peak *ℤ r.den -ℤ peak *ℤ r.num) <ℤ (s.equity *ℤ r.den)
  drawdown_iff none p = ground arith
  drawdown_iff (some r) none = ground arith
  drawdown_iff (some r) (some peak) = ground arith

  positions_iff :
      (o : Option ℕ) → (breaks_positions o s ≡ false) ↔ Limit o λ l. s.open_positions < l
  positions_iff none = ground arith
  positions_iff (some l) = ground arith

  exposure_iff :
      (o : Option ℤ) (ticker : ℕ) (amount : ℤ)
      → (breaks_exposure o ticker amount s ≡ false)
        ↔ Limit o λ l. (or_else (s.ticker_exposure ticker) (pos 0) +ℤ amount) ≤ℤ l
  exposure_iff none ticker amount = ground arith
  exposure_iff (some l) ticker amount = ground arith

order_size_iff :
    (o : Option ℤ) (amount : ℤ) → (breaks_notional o amount ≡ false) ↔ Limit o λ l. amount ≤ℤ l
order_size_iff none amount = ground arith
order_size_iff (some l) amount = ground arith

module _ (limits : RiskLimits) (control : ControlSwitch) (kind : IntentKind) (ticker : ℕ)
    (amount : ℤ) (s : RiskSnapshot) where
  passes_iff : (check limits control kind ticker amount s ≡ allow) ↔ (
      (is_entry kind ≡ false)
      ⊎ ((control.state ≡ running)
          × (breaks_daily_limit limits.daily_loss_limit s ≡ false)
          × (breaks_daily_pct limits.daily_loss_pct s ≡ false)
          × (breaks_drawdown limits.max_drawdown_pct s.peak_equity s ≡ false)
          × (breaks_positions limits.max_open_positions s ≡ false)
          × (breaks_notional limits.max_order_notional amount ≡ false)
          × (breaks_exposure limits.max_ticker_exposure ticker amount s ≡ false)))
  unfolding check
  passes_iff = ground arith

  -- The gate lets an intent pass exactly when it is an exit, a trim or a hold, or when trading is
  -- neither paused nor stopped and every limit that is set is respected.
  pub check_iff :
      (check limits control kind ticker amount s ≡ allow)
      ↔ ((is_entry kind ≡ false) ⊎ ((control.state ≡ running) × Fits limits ticker amount s))
  check_iff = (
    λ h. elim (passes_iff.0 h) [
      | inl e ↦ inl e
      | inr (r, a, b, c, d, e, f) ↦ inr (
        r,
        record {
          daily = (daily_iff s limits.daily_loss_limit).0 a;
          daily_share = (share_iff s limits.daily_loss_pct).0 b;
          drawdown = (drawdown_iff s limits.max_drawdown_pct s.peak_equity).0 c;
          positions = (positions_iff s limits.max_open_positions).0 d;
          order_size = (order_size_iff limits.max_order_notional amount).0 e;
          exposure = (exposure_iff s limits.max_ticker_exposure ticker amount).0 f;
        },
      )
    ],
    λ h. elim h [
      | inl e ↦ passes_iff.1 (inl e)
      | inr (r, fits) ↦ passes_iff.1 (
          inr (
            r,
            (daily_iff s limits.daily_loss_limit).1 fits.daily,
            (share_iff s limits.daily_loss_pct).1 fits.daily_share,
            (drawdown_iff s limits.max_drawdown_pct s.peak_equity).1 fits.drawdown,
            (positions_iff s limits.max_open_positions).1 fits.positions,
            (order_size_iff limits.max_order_notional amount).1 fits.order_size,
            (exposure_iff s limits.max_ticker_exposure ticker amount).1 fits.exposure,
          ))
    ],
  )

-- The kill switch makes one market sale of the whole lot for every open lot and for no other, and
-- the gate lets each of them pass, whatever the limits and the switch say.
pub flat_all_lem :
    (lots : List Lot) (limits : RiskLimits) (control : ControlSwitch) (amount : ℤ)
    (s : RiskSnapshot)
    → (map (λ p. p.0) (build_flat_all_intents lots) ≡ keep_if (λ lot. is_open lot.state) lots)
      × All
          (λ (p : Lot × Intent).
            (is_open p.0.state ≡ true)
            × (p.1 ≡ flat_intent)
            × (check limits control p.1.kind p.0.ticker amount s ≡ allow))
          (build_flat_all_intents lots)
unfolding build_flat_all_intents check is_entry
flat_all_lem [] limits control amount s = (refl, tt)
flat_all_lem (lot ∷ lots) limits control amount s =
    let (e, all) = flat_all_lem lots limits control amount s in
    elim (Bool-cases (is_open lot.state)) [
      | inl h ↦ rw h (ap (λ t. lot ∷ t) e, ((h, refl, refl), all))
      | inr h ↦ rw h (e, all)
    ]
