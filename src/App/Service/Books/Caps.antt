-- ===== src/App/Service/Books/Caps.antt =====
-- `_cap_entry_qty` cuts a quantity down to the limit on an order, and by no more than a share.
use short_trading_bot.Base.{
  ℕ, ◌*◌, ◌/◌, ◌≤◌, ◌<◌, ◌≡◌, false, some, arith, leb, Bool-cases, inl, inr,
}
use native.Mathlib.Nat.{
  mul-lt-mul_of_pos_left, div-mul-le_self, le_of_mul-le-mul_left, mul-le-mul_right,
  le-div_iff_mul-le,
}
use short_trading_bot.Domain.Enums.{is_overseas}
use short_trading_bot.Domain.Position.{Lot}
use short_trading_bot.App.Service.Books.{cap_entry_qty}

mul_positive : (a b : ℕ) → 0 < a → 0 < b → 0 < a * b
mul_positive a b p q = omega (arith, mul-lt-mul_of_pos_left {m = 0} {n = b} {k = a} q p)

-- the limit in whole shares, below a quantity that breaks it
cut_down :
    (share most qty unit : ℕ)
    → 0 < share
    → 0 < unit
    → most < unit * qty
    → let q = most / (unit * share) * share in
      (q ≤ qty) × (unit * q ≤ most) × ((n : ℕ) → unit * (n * share) ≤ most → n * share ≤ q)
cut_down share most qty unit s u over =
    let d = most / (unit * share) in
    let pos_unit : 0 < unit * share = mul_positive unit share u s in
    let fits : unit * (d * share) ≤ most = omega (arith, div-mul-le_self most (unit * share)) in
    (
      le_of_mul-le-mul_left {m = d * share} {n = qty} {k = unit} (omega arith) u,
      fits,
      λ n h. mul-le-mul_right share ((le-div_iff_mul-le pos_unit).1 (omega arith)),
    )

-- A quantity of a market at home is cut down to whole shares that the limit admits, and no more
-- whole shares of it would be admitted.
pub cap_entry_qty_lem :
    (share : ℕ) (quot : ℕ → ℕ → ℕ) (most : ℕ) (lot : Lot) (qty price fx : ℕ)
    → is_overseas lot.market ≡ false
    → 0 < share
    → 0 < price
    → 0 < fx
    → let q = cap_entry_qty share quot (some most) lot qty price fx in
      (q ≤ qty)
      × (price * q * fx ≤ most)
      × ((n : ℕ) → n * share ≤ qty → price * (n * share) * fx ≤ most → n * share ≤ q)
unfolding cap_entry_qty
cap_entry_qty_lem share quot most lot qty price fx d s p f =
    elim (Bool-cases (leb (price * qty * fx) most)) [
      | inl t ↦ ground arith
      | inr n ↦
          let unit : 0 < price * fx = mul_positive price fx p f in
          let (a, b, c) = cut_down share most qty (price * fx) s unit (ground arith) in
          let q : cap_entry_qty share quot (some most) lot qty price fx
              ≡ most / (price * fx * share) * share =
            ground arith in
          rw q (a, omega (arith, b), λ m _ h. c m (omega arith))
    ]
