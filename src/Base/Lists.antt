-- ===== src/Base/Lists.antt =====
-- Lists measured by native numbers, under the library's names, and predicates over them.
use Prim.Native.Nat.{ℕ, suc, ◌+◌}
use mathlib.Core.Path.{◌≡◌}
use mathlib.Core.Bool.{Bool, false, ◌||◌}
use mathlib.Core.List.{List, [], ◌∷◌, ◌++◌, map}
use native.Mathlib.Omega.{arith}
use short_trading_bot.Base.Tests.{ltb, ◌==◌, if◌then◌else◌}

module _ {ℓ} {A : Type ℓ} where
  abbrev pub length : List A → ℕ
  length [] = 0
  length (x ∷ xs) = suc (length xs)

  -- A list comprehension's `if`.
  abbrev pub keep_if : (A → Bool) → List A → List A
  keep_if p [] = []
  keep_if p (x ∷ xs) = let rest = keep_if p xs in if p x then x ∷ rest else rest

  -- Every element satisfies the predicate.
  abbrev pub All {κ} : (A → Type κ) → List A → Type κ
  All P [] = Unit
  All P (x ∷ xs) = P x × All P xs

-- `x in xs`, for numbers
abbrev pub contains : ℕ → List ℕ → Bool
contains k [] = false
contains k (x ∷ xs) = x == k || contains k xs

pub length-append_map {ℓ κ} :
    {A : Type ℓ} {B : Type κ} (f : A → B) (items : List A) (bs : List B)
    → length (bs ++ map f items) ≡ length bs + length items
length-append_map f [] [] = omega arith
length-append_map f (a ∷ items) [] = omega (arith, length-append_map f items [])
length-append_map f items (b ∷ bs) = omega (arith, length-append_map f items bs)

abbrev pub sum : List ℕ → ℕ
sum [] = 0
sum (x ∷ xs) = x + sum xs

pub sum-append : (xs ys : List ℕ) → sum (xs ++ ys) ≡ sum xs + sum ys
sum-append [] ys = omega arith
sum-append (x ∷ xs) ys = omega (arith, sum-append xs ys)

-- `sorted({...})`, one element at a time
unfoldable pub insert_sorted : ℕ → List ℕ → List ℕ
insert_sorted d [] = d ∷ []
insert_sorted d (x ∷ xs) =
    let rest = insert_sorted d xs in
    if d == x then x ∷ xs else if ltb d x then d ∷ x ∷ xs else x ∷ rest

pub contains-insert_sorted :
    (k d : ℕ) (xs : List ℕ) → contains k (insert_sorted d xs) ≡ (d == k || contains k xs)
unfolding insert_sorted
contains-insert_sorted k d [] = ground arith
contains-insert_sorted k d (x ∷ xs) = ground (arith, contains-insert_sorted k d xs)
