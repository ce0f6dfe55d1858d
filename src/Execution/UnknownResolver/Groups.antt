-- ===== src/Execution/UnknownResolver/Groups.antt =====
-- The group of a signature has every unresolved order with it.
use mathlib.Core.Path.{subst}
use short_trading_bot.Base.{
  ℕ, ◌≡◌, refl, sym, ap, ◌∙◌, inl, inr, Bool, true, false, List, [], ◌∷◌, map, All, arith,
  Bool-cases,
}
use short_trading_bot.Execution.Store.{Order}
use short_trading_bot.Execution.UnknownResolver.{
  Signature, same_signature, order_signature, append_to, get_list, group, by_signature,
}
use short_trading_bot.Execution.UnknownResolver.Offers.{same_signature_refl, values_of, group_lem}
use short_trading_bot.Execution.UnknownResolver.Free.{IsIn}

different : (a b : Signature) → same_signature a b ≡ false → same_signature b a ≡ false
unfolding same_signature
different a b h = ground arith

module _ {A : Type 0} where
  -- the key is not in the dictionary
  abbrev HasNo : Signature → List (Signature × List A) → Type 0
  HasNo k [] = Unit
  HasNo k ((k0, _) ∷ d) = (same_signature k0 k ≡ false) × HasNo k d

  abbrev IsDistinct : List (Signature × List A) → Type 0
  IsDistinct [] = Unit
  IsDistinct ((k, _) ∷ d) = HasNo k d × IsDistinct d

  append_to-HasNo :
      (k key : Signature) (x : A) (d : List (Signature × List A))
      → same_signature key k ≡ false
      → HasNo k d
      → HasNo k (append_to key x d)
  unfolding append_to
  append_to-HasNo k key x [] n h = (n, tt)
  append_to-HasNo k key x ((k0, xs) ∷ d) n (a, h) = elim (Bool-cases (same_signature k0 key)) [
    | inl e ↦ rw e (a, h)
    | inr e ↦ rw e (a, append_to-HasNo k key x d n h)
  ]

  append_to-IsDistinct :
      (key : Signature) (x : A) (d : List (Signature × List A))
      → IsDistinct d
      → IsDistinct (append_to key x d)
  unfolding append_to
  append_to-IsDistinct key x [] h = (tt, tt)
  append_to-IsDistinct key x ((k0, xs) ∷ d) (a, h) = elim (Bool-cases (same_signature k0 key)) [
    | inl e ↦ rw e (a, h)
    | inr e ↦
        rw e (append_to-HasNo k0 key x d (different k0 key e) a, append_to-IsDistinct key x d h)
  ]

  group-IsDistinct :
      (items : List (Signature × A)) (d : List (Signature × List A))
      → IsDistinct d
      → IsDistinct (group items d)
  unfolding group
  group-IsDistinct [] d h = h
  group-IsDistinct ((key, x) ∷ items) d h =
      group-IsDistinct items (append_to key x d) (append_to-IsDistinct key x d h)

  abbrev AllFound : List (Signature × List A) → List (Signature × List A) → Type 0
  AllFound whole d = All (λ e. get_list e.0 whole ≡ e.1) d

  later_found :
      (k : Signature) (xs : List A) (whole d : List (Signature × List A))
      → HasNo k d
      → AllFound whole d
      → AllFound ((k, xs) ∷ whole) d
  unfolding get_list
  later_found k xs whole [] n h = tt
  later_found k xs whole ((k0, ys) ∷ d) (n, ns) (e, h) =
      (rw (different k0 k n) e, later_found k xs whole d ns h)

  all_found : (d : List (Signature × List A)) → IsDistinct d → AllFound d d
  unfolding get_list
  all_found [] h = tt
  all_found ((k, xs) ∷ d) (n, h) =
      (rw (same_signature_refl k) refl, later_found k xs d d n (all_found d h))

-- Every one of the orders that has the key is in the entry.
abbrev pub IsFull : List (Order × ℕ) → Signature × List (Order × ℕ) → Type 0
IsFull us e = (y : Order × ℕ) → IsIn y us → order_signature y ≡ e.0 → IsIn y e.1

abbrev signed : List (Order × ℕ) → List (Signature × (Order × ℕ))
signed us = map (λ x. (order_signature x, x)) us

not_both : (b : Bool) → b ≡ true → b ≡ false → ⊥
not_both b s t = ground arith

same_key_as :
    {key : Signature} (x y : Order × ℕ)
    → y ≡ x
    → order_signature y ≡ key
    → same_signature (order_signature x) key ≡ true
same_key_as {key} x y h k =
    ap (λ s. same_signature s key) (ap order_signature (sym h) ∙ k) ∙ same_signature_refl key

values_of-IsFull :
    (key : Signature) (us : List (Order × ℕ)) → IsFull us (key, values_of key (signed us))
values_of-IsFull key [] y m k = absurd m
values_of-IsFull key (x ∷ us) y m k = elim (Bool-cases (same_signature (order_signature x) key)) [
  | inl e ↦ rw e (elim m [ inl h ↦ inl h | inr h ↦ inr (values_of-IsFull key us y h k) ])
  | inr e ↦ rw e (elim m [
    | inl h ↦ absurd (not_both _ (same_key_as x y h k) e)
    | inr h ↦ values_of-IsFull key us y h k
  ])
]

found-IsFull :
    (us : List (Order × ℕ)) (whole d : List (Signature × List (Order × ℕ)))
    → ((key : Signature) → get_list key whole ≡ values_of key (signed us))
    → AllFound whole d
    → All (IsFull us) d
found-IsFull us whole [] g a = tt
found-IsFull us whole ((k, xs) ∷ d) g (e, a) = (
  λ y m s. subst (IsIn y) (sym (g k) ∙ e) (values_of-IsFull k us y m s),
  found-IsFull us whole d g a,
)

pub by_signature-IsFull : (us : List (Order × ℕ)) → All (IsFull us) (by_signature us)
unfolding by_signature get_list
by_signature-IsFull us =
    found-IsFull us (group (signed us) []) (group (signed us) [])
      (λ key. group_lem key (signed us) [])
      (all_found (group (signed us) []) (group-IsDistinct (signed us) [] tt))
