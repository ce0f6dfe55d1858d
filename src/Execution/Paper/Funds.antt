-- ===== src/Execution/Paper/Funds.antt =====
-- That a purchase which is filled at once is paid for.
use short_trading_bot.Base.{
  ℕ, ◌+◌, ◌-◌, ◌*◌, ◌≤◌, ◌<◌, max, ◌≡◌, refl, sym, ap, ◌∙◌, inl, inr, Bool, true, false, not, ◌&&◌,
  List, [], ◌∷◌, map, sum, is_some, arith, Bool-cases,
}
use short_trading_bot.Base.Int.{ℤ, pos, ◌+ℤ◌, ◌-ℤ◌, ◌≤ℤ◌, ltb_ℤ}
use short_trading_bot.Domain.Enums.{Currency, currency, buy, is_buy}
use short_trading_bot.Execution.Types.{OrderRequest, Fill, is_market}
use short_trading_bot.Execution.Paper.State.{Paper, PaperConfig}
use short_trading_bot.Execution.Paper.Fills.{
  apply_and_emit, fill_all, fill_fee, fill_price, estimated_cost, chunk,
}
use short_trading_bot.Execution.Paper.Desk.{
  reserved_in, available_cash, crosses, place, submit_order,
}
use short_trading_bot.Execution.Paper.Chunks.{sum-chunk}
use short_trading_bot.Execution.Paper.Ledger.{pays, receives, fill_all_lem}

-- `x * b / 10000` without rounding: the share of a sum is the sum of the shares.
abbrev pub IsExact : (ℕ → ℕ → ℕ) → Type 0
IsExact portion = (a a' b : ℕ) → portion (a + a') b ≡ portion a b + portion a' b

times_zero : (p : ℕ) → p * 0 ≡ 0
times_zero p = omega arith

distribute : (p q s : ℕ) → p * (q + s) ≡ p * q + p * s
distribute p q s = grind arith

-- what is left of the cash covers what is reserved
covered :
    (c c' : ℤ) (cost paid got kept : ℕ)
    → c' +ℤ pos paid ≡ c +ℤ pos got
    → paid ≡ cost
    → got ≡ 0
    → pos cost ≤ℤ (c -ℤ pos kept)
    → pos 0 ≤ℤ (c' -ℤ pos kept)
unfolding ◌+ℤ◌ ◌-ℤ◌
covered c c' cost paid got kept h p g k = grind arith

module _ (portion : ℕ → ℕ → ℕ) (quot : ℤ → ℤ → ℤ) (now : ℕ) (req : OrderRequest) (price : ℕ) where
  -- what the pieces cost
  cost_of : PaperConfig → List ℕ → ℕ
  unfolding estimated_cost
  cost_of config [] = 0
  cost_of config (q ∷ qs) = estimated_cost portion config price q + cost_of config qs

  unpaid_lem :
      (ccy : Currency) (qs : List ℕ) (number : ℕ) (b : Paper)
      → let (fills, b') = fill_all portion quot now req price qs ccy number b in
        (sum (map (pays buy) fills) ≡ cost_of b.config qs)
        × (sum (map (receives buy) fills) ≡ 0)
        × (b'.config ≡ b.config)
        × (b'.resting ≡ b.resting)
        × (b'.reserved ≡ b.reserved)
  unfolding fill_all apply_and_emit fill_fee cost_of estimated_cost
  unpaid_lem ccy [] number b = (refl, refl, refl, refl, refl)
  unpaid_lem ccy (q ∷ qs) number b =
      let (_, b') = apply_and_emit portion quot now req price q ccy number b in
      let (c, r, x, y, z) = unpaid_lem ccy qs number b' in
      (omega (arith, c), omega (arith, r), x, y, z)

  cost_of_lem :
      (config : PaperConfig) (qs : List ℕ)
      → IsExact portion
      → cost_of config qs ≡ estimated_cost portion config price (sum qs)
  unfolding cost_of estimated_cost
  cost_of_lem config [] exact =
      let nothing = ap (λ t. portion t config.fee_bps) (times_zero price) in
      omega (arith, nothing, exact 0 0 config.fee_bps)
  cost_of_lem config (q ∷ qs) exact =
      let split = ap (λ t. portion t config.fee_bps) (distribute price q (sum qs)) in
      omega (
        arith,
        cost_of_lem config qs exact,
        split,
        distribute price q (sum qs),
        exact (price * q) (price * sum qs) config.fee_bps,
      )

  paid_from_cash :
      (ccy : Currency) (qs : List ℕ) (number : ℕ) (b : Paper)
      → IsExact portion
      → req.side ≡ buy
      → pos (estimated_cost portion b.config price (sum qs)) ≤ℤ available_cash ccy b
      → pos 0 ≤ℤ available_cash ccy (fill_all portion quot now req price qs ccy number b).1
  unfolding available_cash reserved_in
  paid_from_cash ccy qs number b exact side h =
      let (cash, _, _) = fill_all_lem portion quot now req price qs ccy number b in
      let (c, r, _, y, z) = unpaid_lem ccy qs number b in
      rw (y, z)
        (covered (b.cash ccy) _ _ _ _ _
          (moved (fill_all portion quot now req price qs ccy number b) ccy b side cash)
          (c ∙ cost_of_lem b.config qs exact) r h)
    where
      moved :
          (after : List Fill × Paper) (ccy : Currency) (b : Paper)
          → req.side ≡ buy
          → after.1.cash ccy +ℤ pos (sum (map (pays req.side) after.0))
            ≡ b.cash ccy +ℤ pos (sum (map (receives req.side) after.0))
          → after.1.cash ccy +ℤ pos (sum (map (pays buy) after.0))
            ≡ b.cash ccy +ℤ pos (sum (map (receives buy) after.0))
      moved after ccy b side h = rw (sym side) h

module _ (share : ℕ) (part portion : ℕ → ℕ → ℕ) (quot : ℤ → ℤ → ℤ) (now : ℕ) where
  -- Where funds are enforced, an accepted purchase that does not have to wait for its price is filled
  -- in full and leaves enough cash for what is reserved; the fee is an exact share, and the pieces
  -- fit into the order.
  pub submit_order_paid :
      (req : OrderRequest) (b : Paper)
      → IsExact portion
      → 0 < req.qty
      → (max 1 b.config.max_fill_chunks - 1) * part req.qty (max 1 b.config.max_fill_chunks)
        ≤ req.qty
      → req.side ≡ buy
      → b.config.enforce_funds ≡ true
      → (b.config.resting_limits && not (is_market req) && not (crosses req (b.prices req.ticker)))
        ≡ false
      → (submit_order share part portion quot now req b).0.accepted ≡ true
      → let (_, fills, b') = submit_order share part portion quot now req b in
        (sum (map (λ f. f.qty) fills) ≡ req.qty)
        × (pos 0 ≤ℤ available_cash (currency req.market) b')
  unfolding submit_order place
  submit_order_paid req b exact some_qty fit side funds at_once ok =
      let ccy = currency req.market in
      let price = fill_price portion b.config req (b.prices req.ticker) in
      let pieces = chunk share part b.config.max_fill_chunks req.qty in
      let b1 = record b { seq = b.seq + 1 } in
      let (whole, _) = sum-chunk share part b.config.max_fill_chunks req.qty some_qty fit in
      elim (Bool-cases (is_market req && not (is_some (b.prices req.ticker)))) [
        | inl h ↦ absurd (not_both ok (rw h refl))
        | inr h ↦
            elim (Bool-cases (
              is_buy req.side
              && b.config.enforce_funds
              && ltb_ℤ (available_cash ccy b)
                  (pos (estimated_cost portion b.config price req.qty)))) [
                    | inl k ↦ absurd (not_both ok (rw (h, k) refl))
                    | inr k ↦
                        let (_, same, _) =
                          fill_all_lem portion quot now req price pieces ccy b1.seq b1 in
                        rw (h, k, at_once)
                          (
                            ap sum same ∙ whole,
                            paid_from_cash portion quot now req price ccy pieces b1.seq b1 exact
                                side
                                (at_most (available_cash ccy b)
                                  (estimated_cost portion b.config price) req.qty (sym whole)
                                  (affordable _ _ side funds k)),
                          )
                  ]
      ]
    where
      not_both : {x : Bool} → x ≡ true → x ≡ false → ⊥
      not_both p q = cc

      affordable :
          (c : ℤ) (n : ℕ)
          → req.side ≡ buy
          → b.config.enforce_funds ≡ true
          → (is_buy req.side && b.config.enforce_funds && ltb_ℤ c (pos n)) ≡ false
          → pos n ≤ℤ c
      affordable c n side funds k = ground arith

      at_most : (a : ℤ) (f : ℕ → ℕ) (n : ℕ) {m : ℕ} → n ≡ m → pos (f n) ≤ℤ a → pos (f m) ≤ℤ a
      at_most a f n e h = rw (sym e) h
