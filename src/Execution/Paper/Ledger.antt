-- ===== src/Execution/Paper/Ledger.antt =====
-- The money and the totals that the fills of an order move.
use short_trading_bot.Base.{
  ℕ, ◌+◌, ◌*◌, ◌≡◌, refl, sym, ap, ◌∙◌, inl, inr, true, some, List, [], ◌∷◌, map, sum, find_by,
  find_by-key, arith, Option-cases,
}
use short_trading_bot.Base.Int.{ℤ, pos, pos_part, neg_part, ◌+ℤ◌, ◌-ℤ◌}
use short_trading_bot.Domain.Enums.{
  Currency, krw, usd, hkd, jpy, cny, vnd, Currency-discrete, Side, buy, sell,
}
use short_trading_bot.Execution.Types.{OrderRequest, Fill}
use short_trading_bot.Execution.Paper.State.{Totals, Paper, same_currency, totals_of, put_totals}
use short_trading_bot.Execution.Paper.Fills.{cash_after, grown, apply_and_emit, fill_all}

parts : (a b : ℤ) → a ≡ b → pos_part a + neg_part b ≡ pos_part b + neg_part a
parts a b h = rw h refl

add_up :
    (c c' c'' : ℤ) (p r p' r' : ℕ)
    → c' +ℤ pos p ≡ c +ℤ pos r
    → c'' +ℤ pos p' ≡ c' +ℤ pos r'
    → c'' +ℤ pos (p + p') ≡ c +ℤ pos (r + r')
unfolding ◌+ℤ◌
add_up c c' c'' p r p' r' h k = grind arith

-- what the customer pays, and receives, for a fill
abbrev pub pays : Side → Fill → ℕ
pays buy f = f.price * f.qty + f.fee
pays sell f = f.fee + f.tax

abbrev pub receives : Side → Fill → ℕ
receives buy f = 0
receives sell f = f.price * f.qty

same_currency_refl : (c : Currency) → same_currency c c ≡ true
unfolding same_currency Currency-discrete
same_currency_refl krw = refl
same_currency_refl usd = refl
same_currency_refl hkd = refl
same_currency_refl jpy = refl
same_currency_refl cny = refl
same_currency_refl vnd = refl

find_by-put_totals :
    (t : Totals) (xs : List Totals) → find_by (λ x. x.number) t.number (put_totals t xs) ≡ some t
unfolding put_totals
find_by-put_totals t [] = ground arith
find_by-put_totals t (x ∷ xs) = ground (arith, find_by-put_totals t xs)

-- the shares that an order number has been filled with
abbrev pub executed : ℕ → Paper → ℕ
executed number b = (totals_of (find_by (λ t. t.number) number b.totals) number).qty

totals_of-number :
    (number : ℕ) (xs : List Totals)
    → (totals_of (find_by (λ t. t.number) number xs) number).number ≡ number
totals_of-number number xs = elim (Option-cases (find_by (λ t. t.number) number xs)) [
  | inl e ↦ rw e refl
  | inr (t, e) ↦ rw e (find_by-key (λ t. t.number) number xs e)
]

-- The totals under a number, after totals with that number have been put.
totals_of-put_totals :
    (number : ℕ) (t : Totals) (xs : List Totals)
    → t.number ≡ number
    → totals_of (find_by (λ x. x.number) number (put_totals t xs)) number ≡ t
totals_of-put_totals number t xs e =
    ap (λ k. totals_of (find_by (λ x. x.number) k (put_totals t xs)) number) (sym e)
    ∙ ap (λ o. totals_of o number) (find_by-put_totals t xs)

module _ (portion : ℕ → ℕ → ℕ) (quot : ℤ → ℤ → ℤ) (now : ℕ) (req : OrderRequest) (price : ℕ) where
  cash_after_lem :
      (side : Side) (f : Fill) (c : ℤ)
      → cash_after portion quot now side (f.price * f.qty) f.fee f.tax c +ℤ pos (pays side f)
        ≡ c +ℤ pos (receives side f)
  unfolding cash_after ◌+ℤ◌ ◌-ℤ◌
  cash_after_lem buy f c = ground arith
  cash_after_lem sell f c = ground arith

  cash_lem :
      (ccy : Currency) (qty number : ℕ) (b : Paper)
      → let (fill, b') = apply_and_emit portion quot now req price qty ccy number b in
        (b'.cash ccy +ℤ pos (pays req.side fill) ≡ b.cash ccy +ℤ pos (receives req.side fill))
        × (fill.qty ≡ qty)
  unfolding apply_and_emit
  cash_lem ccy qty number b =
      let (fill, b') = apply_and_emit portion quot now req price qty ccy number b in
      rw (same_currency_refl ccy) (cash_after_lem req.side fill (b.cash ccy), refl)

  executed_lem :
      (ccy : Currency) (qty number : ℕ) (b : Paper)
      → executed number (apply_and_emit portion quot now req price qty ccy number b).1
        ≡ executed number b + qty
  unfolding apply_and_emit grown
  executed_lem ccy qty number b =
      let (fill, _) = apply_and_emit portion quot now req price qty ccy number b in
      ap (λ t. t.qty)
        (totals_of-put_totals number
          (grown portion quot now qty fill.fee fill.tax
            (totals_of (find_by (λ t. t.number) number b.totals) number))
          b.totals (totals_of-number number b.totals))

  -- Over the pieces of an order the cash in its currency and what is paid equal the cash before and
  -- what is received, the fills are the pieces, and the executed total of its number, which is what
  -- the broker reports as the cumulative quantity, grows by their sum.
  pub fill_all_lem :
      (pieces : List ℕ) (ccy : Currency) (number : ℕ) (b : Paper)
      → let (fills, b') = fill_all portion quot now req price pieces ccy number b in
        (b'.cash ccy +ℤ pos (sum (map (pays req.side) fills))
          ≡ b.cash ccy +ℤ pos (sum (map (receives req.side) fills)))
        × (map (λ f. f.qty) fills ≡ pieces)
        × (executed number b' ≡ executed number b + sum pieces)
  unfolding fill_all
  fill_all_lem [] ccy number b = (refl, refl, omega arith)
  fill_all_lem (qty ∷ pieces) ccy number b =
      let (fill, b') = apply_and_emit portion quot now req price qty ccy number b in
      let (cash, _) = cash_lem ccy qty number b in
      let (cash', same', total') = fill_all_lem pieces ccy number b' in
      (
        add_up _ _ _ _ _ _ _ cash cash',
        ap (λ l. qty ∷ l) same',
        omega (arith, total', executed_lem ccy qty number b),
      )
