-- ===== src/Execution/Paper/Chunks.antt =====
-- The pieces that an order is filled in.
use native.Mathlib.Nat.{div-mul-le_self, mul-le-mul_right}
use short_trading_bot.Base.{
  ℕ, zero, suc, ◌+◌, ◌-◌, ◌*◌, ◌/◌, ◌%◌, ◌≤◌, ◌<◌, max, ◌≡◌, inl, inr, List, [], All, sum, ltb,
  ◌==◌, arith, Bool-cases,
}
use short_trading_bot.Execution.Paper.Fills.{keep_positive, pieces, even_piece, chunk}

keep_positive_lem : (q : ℕ) (rest : List ℕ) → sum (keep_positive q rest) ≡ q + sum rest
keep_positive_lem q rest = ground arith

sum-pieces :
    (even remaining n : ℕ) → n * even ≤ remaining → sum (pieces even remaining n) ≡ remaining
unfolding pieces
sum-pieces even remaining zero h = omega (arith, keep_positive_lem remaining [])
sum-pieces even remaining (suc n) h = omega (
  arith,
  keep_positive_lem even (pieces even (remaining - even) n),
  sum-pieces even (remaining - even) n (grind arith),
)

pieces_positive : (even remaining n : ℕ) → All (λ q. 0 < q) (pieces even remaining n)
unfolding pieces
pieces_positive even remaining zero = ground arith
pieces_positive even remaining (suc n) =
    let ih = pieces_positive even (remaining - even) n in
    elim (Bool-cases (ltb 0 even)) [ inl h ↦ rw h (ground arith, ih) | inr h ↦ rw h ih ]

even_fits : (share qty m : ℕ) → (m - 1) * (qty / share / m * share) ≤ qty
even_fits share qty m =
    let e = qty / share / m in
    let low = mul-le-mul_right share (div-mul-le_self (qty / share) m) in
    let whole = div-mul-le_self qty share in
    let fewer = mul-le-mul_right (e * share) (one_less m) in
    omega (arith, low, whole, fewer, turn m e share)
  where
    one_less : (m : ℕ) → m - 1 ≤ m
    one_less m = omega arith

    turn : (m e s : ℕ) → m * (e * s) ≡ e * m * s
    turn m e s = grind arith

-- The pieces of an order are positive and sum up to it, where the division of `Decimal`, used when
-- the order is not of whole shares, is rounded so that all pieces but the last fit into the order.
pub sum-chunk :
    (share : ℕ) (part : ℕ → ℕ → ℕ) (n qty : ℕ)
    → 0 < qty
    → (max 1 n - 1) * part qty (max 1 n) ≤ qty
    → (sum (chunk share part n qty) ≡ qty) × All (λ q. 0 < q) (chunk share part n qty)
unfolding chunk even_piece
sum-chunk share part n qty h fits = elim (Bool-cases (max 1 n == 1)) [
  | inl one ↦ rw one (ground arith)
  | inr more ↦ elim (Bool-cases (qty % share == 0)) [
    | inl e ↦
        rw (more, e)
          (
            sum-pieces _ qty (max 1 n - 1) (even_fits share qty (max 1 n)),
            pieces_positive _ qty (max 1 n - 1),
          )
    | inr e ↦
        rw (more, e) (sum-pieces _ qty (max 1 n - 1) fits, pieces_positive _ qty (max 1 n - 1))
  ]
]
