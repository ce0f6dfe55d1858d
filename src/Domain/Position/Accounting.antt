-- ===== src/Domain/Position/Accounting.antt =====
-- What fills do to the quantity, the average entry price and the realised profit.
use short_trading_bot.Base.{
  ℕ, ◌+◌, ◌-◌, ◌*◌, ◌≤◌, ◌<◌, All, ◌≡◌, refl, List, [], ◌∷◌, map, sum, arith, ◌∙◌, if◌then◌else◌,
}
use short_trading_bot.Base.Int.{ℤ, pos, ◌+ℤ◌, ◌-ℤ◌, int_laws, diff_times}
use short_trading_bot.Domain.Enums.{Side, buy, sell, is_buy}
use short_trading_bot.Domain.Position.{Lot, LotFill, apply_fill, blended, realized_of, sale_pnl}

-- the held quantity after a fill
abbrev pub qty_after : Side → ℕ → ℕ → ℕ
qty_after buy held qty = held + qty
qty_after sell held qty = held - qty

abbrev pub avg_after : (ℕ → ℕ → ℕ) → Side → LotFill → Lot → ℕ
avg_after quot buy f lot = blended quot lot.avg_entry lot.qty f.qty f.price
avg_after quot sell f lot = lot.avg_entry

abbrev pub pnl_after : Side → LotFill → Lot → ℤ
pnl_after buy f lot = lot.realized_pnl
pnl_after sell f lot =
    lot.realized_pnl +ℤ sale_pnl f.price lot.avg_entry (realized_of f.qty lot.qty) f.fee f.tax

module _ (quot : ℕ → ℕ → ℕ) where
  side_ledger :
      (side : Side) (f : LotFill) (lot : Lot)
      → f.side ≡ side
      → let lot' = (apply_fill quot f lot).0 in
        (lot'.qty ≡ qty_after side lot.qty f.qty)
        × (lot'.avg_entry ≡ avg_after quot side f lot)
        × (lot'.realized_pnl ≡ pnl_after side f lot)
  unfolding apply_fill
  side_ledger buy f lot e = ground arith
  side_ledger sell f lot e = ground arith

  pub apply_fill_ledger :
      (f : LotFill) (lot : Lot)
      → let lot' = (apply_fill quot f lot).0 in
        (lot'.qty ≡ qty_after f.side lot.qty f.qty)
        × (lot'.avg_entry ≡ avg_after quot f.side f lot)
        × (lot'.realized_pnl ≡ pnl_after f.side f lot)
  apply_fill_ledger f lot = side_ledger f.side f lot refl

pub realized_covered : (qty held : ℕ) → qty ≤ held → realized_of qty held ≡ qty
unfolding realized_of
realized_covered qty held h = ground arith

mul_split : (a q n : ℕ) → q ≤ n → a * (n - q) + a * q ≡ a * n
mul_split a q n h = let e : n ≡ n - q + q = omega arith in rw e (grind arith)

-- A run of fills, in the order of their arrival.
module _ (quot : ℕ → ℕ → ℕ) where
  unfoldable pub apply_fills : List LotFill → Lot → Lot
  apply_fills [] lot = lot
  apply_fills (f ∷ fs) lot = apply_fills fs (apply_fill quot f lot).0

  -- No sale is of more than is held.
  abbrev pub IsCovered : List LotFill → Lot → Type 0
  IsCovered [] lot = Unit
  IsCovered (f ∷ fs) lot =
      (f.side ≡ sell → f.qty ≤ lot.qty) × IsCovered fs (apply_fill quot f lot).0

  -- The division behind each average price leaves no remainder.
  abbrev pub IsExact : List LotFill → Lot → Type 0
  IsExact [] lot = Unit
  IsExact (f ∷ fs) lot =
      (f.side ≡ buy
        → blended quot lot.avg_entry lot.qty f.qty f.price * (lot.qty + f.qty)
          ≡ lot.avg_entry * lot.qty + f.price * f.qty)
      × IsExact fs (apply_fill quot f lot).0

-- What one fill moves in shares: bought and sold.
abbrev pub bought : LotFill → ℕ
bought f = elim f.side [ buy ↦ f.qty | sell ↦ 0 ]

abbrev pub sold : LotFill → ℕ
sold f = elim f.side [ buy ↦ 0 | sell ↦ f.qty ]

-- The money that one fill brings in, by the rules of the lot: the commission of a purchase is not
-- counted.
abbrev pub proceeds : Side → LotFill → ℤ
proceeds buy f = pos 0 -ℤ pos (f.price * f.qty)
proceeds sell f = pos (f.price * f.qty) -ℤ pos f.fee -ℤ pos f.tax

abbrev pub total_proceeds : List LotFill → ℤ
total_proceeds [] = pos 0
total_proceeds (f ∷ fs) = proceeds f.side f +ℤ total_proceeds fs

-- the money that a fill really brings in or takes: commissions and taxes on both sides
abbrev pub cash_of : Side → LotFill → ℤ
cash_of buy f = pos 0 -ℤ pos (f.price * f.qty) -ℤ pos f.fee
cash_of sell f = pos (f.price * f.qty) -ℤ pos f.fee -ℤ pos f.tax

abbrev pub total_cash : List LotFill → ℤ
total_cash [] = pos 0
total_cash (f ∷ fs) = cash_of f.side f +ℤ total_cash fs

-- the commissions of the purchases, which no lot counts
abbrev pub buy_fees : List LotFill → ℕ
buy_fees [] = 0
buy_fees (f ∷ fs) = (if is_buy f.side then f.fee else 0) + buy_fees fs

proceeds-cash :
    (side : Side) (f : LotFill)
    → proceeds side f ≡ cash_of side f +ℤ pos (if is_buy side then f.fee else 0)
proceeds-cash buy f = omega int_laws
proceeds-cash sell f = omega int_laws

total_proceeds-cash : (fs : List LotFill) → total_proceeds fs ≡ total_cash fs +ℤ pos (buy_fees fs)
total_proceeds-cash [] = omega int_laws
total_proceeds-cash (f ∷ fs) = rw (total_proceeds-cash fs, proceeds-cash f.side f) (omega int_laws)

-- profit less the cost of what is still held
abbrev pub net : Lot → ℤ
net lot = lot.realized_pnl -ℤ pos (lot.avg_entry * lot.qty)

module _ (quot : ℕ → ℕ → ℕ) where
  qty_step :
      (f : LotFill) (lot : Lot)
      → (f.side ≡ sell → f.qty ≤ lot.qty)
      → (apply_fill quot f lot).0.qty + sold f ≡ lot.qty + bought f
  qty_step f lot h = ground (arith, apply_fill_ledger quot f lot)

  -- If no sale is of more than is held, every share is accounted for.
  pub apply_fills_conserve :
      (fs : List LotFill) (lot : Lot)
      → IsCovered quot fs lot
      → (apply_fills quot fs lot).qty + sum (map sold fs) ≡ lot.qty + sum (map bought fs)
  unfolding apply_fills
  apply_fills_conserve [] lot h = refl
  apply_fills_conserve (f ∷ fs) lot h =
      omega (arith, qty_step f lot h.0, apply_fills_conserve fs (apply_fill quot f lot).0 h.1)

  net_buy :
      (f : LotFill) (lot : Lot)
      → blended quot lot.avg_entry lot.qty f.qty f.price * (lot.qty + f.qty)
        ≡ lot.avg_entry * lot.qty + f.price * f.qty
      → lot.realized_pnl
          -ℤ pos (blended quot lot.avg_entry lot.qty f.qty f.price * (lot.qty + f.qty))
        ≡ net lot +ℤ proceeds buy f
  net_buy f lot x = rw x (omega int_laws)

  net_sell :
      (f : LotFill) (lot : Lot)
      → f.qty ≤ lot.qty
      → pnl_after sell f lot -ℤ pos (lot.avg_entry * (lot.qty - f.qty)) ≡ net lot +ℤ proceeds sell f
  unfolding sale_pnl
  net_sell f lot c = rw (realized_covered f.qty lot.qty c) (
      omega
        (int_laws, diff_times f.price lot.avg_entry f.qty, mul_split lot.avg_entry f.qty lot.qty c))

  net_step :
      (side : Side) (f : LotFill) (lot : Lot)
      → f.side ≡ side
      → (f.side ≡ sell → f.qty ≤ lot.qty)
      → (f.side ≡ buy
          → blended quot lot.avg_entry lot.qty f.qty f.price * (lot.qty + f.qty)
            ≡ lot.avg_entry * lot.qty + f.price * f.qty)
      → net (apply_fill quot f lot).0 ≡ net lot +ℤ proceeds side f
  net_step buy f lot e c x =
      let (q, a, r) = side_ledger quot buy f lot e in rw (q, a, r) (net_buy f lot (x e))
  net_step sell f lot e c x =
      let (q, a, r) = side_ledger quot sell f lot e in rw (q, a, r) (net_sell f lot (c e))

  net_proceeds :
      (fs : List LotFill) (lot : Lot)
      → IsCovered quot fs lot
      → IsExact quot fs lot
      → net (apply_fills quot fs lot) ≡ net lot +ℤ total_proceeds fs
  unfolding apply_fills
  net_proceeds [] lot c x = omega int_laws
  net_proceeds (f ∷ fs) lot c x =
      rw (net_proceeds fs (apply_fill quot f lot).0 c.1 x.1, net_step f.side f lot refl c.0 x.0)
        (omega int_laws)

  -- With covered sales and exact divisions, over a run of fills the realised profit less the cost of
  -- the shares still held changes by the money that the fills brought in, commissions and taxes taken
  -- off, and by the commissions of the purchases, which the lot does not count.
  pub net-apply_fills :
      (fs : List LotFill) (lot : Lot)
      → IsCovered quot fs lot
      → IsExact quot fs lot
      → net (apply_fills quot fs lot) ≡ net lot +ℤ total_cash fs +ℤ pos (buy_fees fs)
  net-apply_fills fs lot c x =
      net_proceeds fs lot c x ∙ rw (total_proceeds-cash fs) (omega int_laws)

-- Decimal division rounds correctly: a quotient between two representable numbers stays between.
pub record IsDivision (quot : ℕ → ℕ → ℕ) : Type 0 where
  pub at_least : (lo n d : ℕ) → 0 < d → lo * d ≤ n → lo ≤ quot n d
  pub at_most : (hi n d : ℕ) → 0 < d → n ≤ hi * d → quot n d ≤ hi

module _ (quot : ℕ → ℕ → ℕ) (division : IsDivision quot) (lo hi : ℕ) where
  blend_low : (avg q price r : ℕ) → lo ≤ avg → lo ≤ price → lo * (q + r) ≤ avg * q + price * r
  blend_low avg q price r h k = grind arith

  blend_high : (avg q price r : ℕ) → avg ≤ hi → price ≤ hi → avg * q + price * r ≤ hi * (q + r)
  blend_high avg q price r h k = grind arith

  blended_bounds :
      (avg q price r : ℕ)
      → (lo ≤ avg) × (avg ≤ hi)
      → (lo ≤ price) × (price ≤ hi)
      → (lo ≤ blended quot avg q r price) × (blended quot avg q r price ≤ hi)
  unfolding blended
  blended_bounds avg q price r h k = ground (
    arith,
    division.at_least lo (avg * q + price * r) (q + r),
    division.at_most hi (avg * q + price * r) (q + r),
    blend_low avg q price r h.0 k.0,
    blend_high avg q price r h.1 k.1,
  )

  abbrev InRange : LotFill → Type 0
  InRange f = (lo ≤ f.price) × (f.price ≤ hi)

  -- If every price of a run and the average before it lie in a range, so does the average after it.
  pub apply_fills_avg_bounds :
      (fs : List LotFill) (lot : Lot)
      → All InRange fs
      → (lo ≤ lot.avg_entry) × (lot.avg_entry ≤ hi)
      → let avg = (apply_fills quot fs lot).avg_entry in (lo ≤ avg) × (avg ≤ hi)
  unfolding apply_fills
  apply_fills_avg_bounds [] lot h b = b
  apply_fills_avg_bounds (f ∷ fs) lot h b =
      apply_fills_avg_bounds fs (apply_fill quot f lot).0 h.1 (
        ground (
          arith,
          apply_fill_ledger quot f lot,
          blended_bounds lot.avg_entry lot.qty f.price f.qty b h.0,
        ))
