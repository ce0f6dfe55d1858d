-- ===== src/Base/Dict.antt =====
-- A Python dictionary with numbers as keys, in the order of insertion.
use Prim.Native.Nat.{ℕ}
use mathlib.Core.Path.{◌≡◌, refl}
use mathlib.Core.Option.{Option, none, some}
use mathlib.Core.List.{List, [], ◌∷◌}
use native.Mathlib.Omega.{arith}
use short_trading_bot.Base.Tests.{◌==◌, if◌then◌else◌}

module _ {ℓ} {A : Type ℓ} where
  -- `d.get(key)`
  unfoldable pub get_at : ℕ → List (ℕ × A) → Option A
  get_at key [] = none
  get_at key ((k, y) ∷ d) = let rest = get_at key d in if k == key then some y else rest

  -- `d[key] = value`
  unfoldable pub put : ℕ → A → List (ℕ × A) → List (ℕ × A)
  put key x [] = (key, x) ∷ []
  put key x ((k, y) ∷ d) = let rest = put key x d in if k == key then (k, x) ∷ d else (k, y) ∷ rest

  -- `d.pop(key, None)`; a key is there once at most
  unfoldable pub pop : ℕ → List (ℕ × A) → List (ℕ × A)
  pop key [] = []
  pop key ((k, y) ∷ d) = let rest = pop key d in if k == key then rest else (k, y) ∷ rest

  pub get_at-put :
      (j k : ℕ) (x : A) (d : List (ℕ × A))
      → get_at j (put k x d) ≡ (if k == j then some x else get_at j d)
  unfolding get_at put
  get_at-put j k x [] = refl
  get_at-put j k x ((i, y) ∷ d) = ground (arith, get_at-put j k x d)

  pub get_at-pop :
      (j k : ℕ) (d : List (ℕ × A)) → get_at j (pop k d) ≡ (if k == j then none else get_at j d)
  unfolding get_at pop
  get_at-pop j k [] = ground arith
  get_at-pop j k ((i, y) ∷ d) = ground (arith, get_at-pop j k d)
