-- ===== src/Base/Table.antt =====
-- A database table with a unique key, as a list of rows: the row with a key, and its change in place.
use Prim.Native.Nat.{ℕ}
use mathlib.Core.Path.{◌≡◌, refl}
use mathlib.Core.Logic.{◌≢◌}
use mathlib.Core.Option.{Option, none, some}
use mathlib.Core.List.{List, [], ◌∷◌, ◌++◌, map}
use native.Mathlib.Omega.{arith}
use short_trading_bot.Base.Tests.{◌==◌, if◌then◌else◌}

module _ {ℓ} {A : Type ℓ} where
  -- `scalar_one_or_none()` of a select by the key
  abbrev pub find_by : (A → ℕ) → ℕ → List A → Option A
  find_by key k [] = none
  find_by key k (x ∷ xs) = let rest = find_by key k xs in if key x == k then some x else rest

  -- the row that a select by the key has found is assigned to
  abbrev pub update_by : (A → ℕ) → ℕ → (A → A) → List A → List A
  update_by key k f [] = []
  update_by key k f (x ∷ xs) =
      let rest = update_by key k f xs in if key x == k then f x ∷ xs else x ∷ rest

  pub find_by-key :
      (key : A → ℕ) (k : ℕ) (xs : List A) {x : A} → find_by key k xs ≡ some x → key x ≡ k
  find_by-key key k [] h = cc
  find_by-key key k (y ∷ ys) {x} h = ground (arith, find_by-key key k ys {x = x})

  -- A change that keeps the key is seen by the select of that key.
  pub find_by-update_by_self :
      (key : A → ℕ) (k : ℕ) (f : A → A) (xs : List A) {x : A}
      → key (f x) ≡ key x
      → find_by key k xs ≡ some x
      → find_by key k (update_by key k f xs) ≡ some (f x)
  find_by-update_by_self key k f [] e h = cc
  find_by-update_by_self key k f (y ∷ ys) {x} e h =
      ground (arith, find_by-update_by_self key k f ys {x = x} e)

  pub find_by-update_by_ne :
      (key : A → ℕ) (j k : ℕ) (f : A → A) (xs : List A)
      → ((x : A) → key (f x) ≡ key x)
      → j ≢ k
      → find_by key j (update_by key k f xs) ≡ find_by key j xs
  find_by-update_by_ne key j k f [] e h = refl
  find_by-update_by_ne key j k f (y ∷ ys) e h =
      ground (arith, e y, find_by-update_by_ne key j k f ys e h)

  pub find_by-append_new :
      (key : A → ℕ) (k : ℕ) (xs : List A) (x : A)
      → find_by key k xs ≡ none
      → key x ≡ k
      → find_by key k (xs ++ x ∷ []) ≡ some x
  find_by-append_new key k [] x h e = ground arith
  find_by-append_new key k (y ∷ ys) x h e = ground (arith, find_by-append_new key k ys x)

  pub find_by-append_ne :
      (key : A → ℕ) (k : ℕ) (xs : List A) (x : A)
      → key x ≢ k
      → find_by key k (xs ++ x ∷ []) ≡ find_by key k xs
  find_by-append_ne key k [] x e = ground arith
  find_by-append_ne key k (y ∷ ys) x e = ground (arith, find_by-append_ne key k ys x e)

  -- A change of every row that keeps the keys is seen by every select.
  pub find_by-map :
      (key : A → ℕ) (k : ℕ) (f : A → A) (xs : List A) {x : A}
      → ((y : A) → key (f y) ≡ key y)
      → find_by key k xs ≡ some x
      → find_by key k (map f xs) ≡ some (f x)
  find_by-map key k f [] e h = cc
  find_by-map key k f (y ∷ ys) {x} e h = ground (arith, e y, find_by-map key k f ys {x = x} e)

  -- what becomes of a row that is found
  abbrev pub map_found : (A → A) → Option A → Option A
  map_found f none = none
  map_found f (some x) = some (f x)

  -- A change of the row with a key, which keeps that key, is seen by the select of that key only.
  pub find_by-update_by :
      (key : A → ℕ) (j k : ℕ) (f : A → A) (xs : List A)
      → ((x : A) → key x ≡ k → key (f x) ≡ k)
      → find_by key j (update_by key k f xs)
        ≡ (if k == j then map_found f (find_by key j xs) else find_by key j xs)
  find_by-update_by key j k f [] h = ground arith
  find_by-update_by key j k f (x ∷ xs) h = ground (arith, h x, find_by-update_by key j k f xs h)
