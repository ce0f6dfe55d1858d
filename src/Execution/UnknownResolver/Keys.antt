-- ===== src/Execution/UnknownResolver/Keys.antt =====
-- What is put into a dictionary of the resolver stays under its key.
use short_trading_bot.Base.{sym, inl, inr, List, [], ◌∷◌, ◌++◌, All, Bool-cases}
use short_trading_bot.Execution.UnknownResolver.Offers.{same_signature_eq}
use short_trading_bot.Execution.UnknownResolver.{
  Signature, same_signature, append_to, get_list, group,
}

-- Each value stands under a key that fits it.
abbrev pub Keyed {ℓ} : {A : Type ℓ} → (Signature → A → Type ℓ) → List (Signature × List A) → Type ℓ
Keyed P [] = Unit
Keyed P ((k, xs) ∷ d) = All (P k) xs × Keyed P d

module _ {ℓ} {A : Type ℓ} (P : Signature → A → Type ℓ) where
  All-snoc : (k : Signature) (xs : List A) (x : A) → All (P k) xs → P k x → All (P k) (xs ++ x ∷ [])
  All-snoc k [] x a p = (p, tt)
  All-snoc k (y ∷ ys) x (q, a) p = (q, All-snoc k ys x a p)

  append_to-Keyed :
      (key : Signature) (x : A) (d : List (Signature × List A))
      → P key x
      → Keyed P d
      → Keyed P (append_to key x d)
  unfolding append_to
  append_to-Keyed key x [] p h = ((p, tt), tt)
  append_to-Keyed key x ((k, xs) ∷ d) p (a, h) = elim (Bool-cases (same_signature k key)) [
    | inl e ↦ rw e (All-snoc k xs x a (rw (same_signature_eq k key e) p), h)
    | inr e ↦ rw e (a, append_to-Keyed key x d p h)
  ]

  pub group-Keyed :
      (items : List (Signature × A)) (d : List (Signature × List A))
      → All (λ (i : Signature × A). P i.0 i.1) items
      → Keyed P d
      → Keyed P (group items d)
  unfolding group
  group-Keyed [] d a h = h
  group-Keyed ((key, x) ∷ items) d (p, a) h =
      group-Keyed items (append_to key x d) a (append_to-Keyed key x d p h)

  pub get_list-Keyed :
      (key : Signature) (d : List (Signature × List A)) → Keyed P d → All (P key) (get_list key d)
  unfolding get_list
  get_list-Keyed key [] h = tt
  get_list-Keyed key ((k, xs) ∷ d) (a, h) = elim (Bool-cases (same_signature k key)) [
    | inl e ↦ rw e (rw (sym (same_signature_eq k key e)) a)
    | inr e ↦ rw e (get_list-Keyed key d h)
  ]
