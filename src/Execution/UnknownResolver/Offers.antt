-- ===== src/Execution/UnknownResolver/Offers.antt =====
-- The dictionaries of the resolver find what a search through the lists finds.
use mathlib.Core.List.{append_assoc, append-nil}
use short_trading_bot.Base.{
  ℕ, ◌≡◌, refl, sym, ap, ◌∙◌, inl, inr, true, false, not, ◌&&◌, List, [], ◌∷◌, ◌++◌, map, keep_if,
  contains, if◌then◌else◌, arith, Bool-cases,
}
use short_trading_bot.Execution.Types.{OrderRecord}
use short_trading_bot.Execution.UnknownResolver.{
  Signature, same_signature, record_signature, append_to, get_list, group, candidates,
}

pub same_signature_eq : (a b : Signature) → same_signature a b ≡ true → a ≡ b
unfolding same_signature
same_signature_eq a b h = ground arith

pub same_signature_refl : (a : Signature) → same_signature a a ≡ true
unfolding same_signature
same_signature_refl a = ground arith

-- two different keys are not both like a third
apart :
    (a b k : Signature)
    → same_signature a b ≡ false
    → same_signature a k ≡ true
    → same_signature b k ≡ false
unfolding same_signature
apart a b k h e = ground arith

module _ {ℓ} {A : Type ℓ} where
  -- the values of the items with a key, in their order
  abbrev pub values_of : Signature → List (Signature × A) → List A
  values_of k [] = []
  values_of k ((key, x) ∷ items) =
      let rest = values_of k items in if same_signature key k then x ∷ rest else rest

  same_key :
      (k key : Signature) (x : A) (k0 : Signature) (xs : List A) (d : List (Signature × List A))
      → same_signature k0 key ≡ true
      → get_list k (append_to key x ((k0, xs) ∷ d))
        ≡ get_list k ((k0, xs) ∷ d) ++ (if same_signature key k then x ∷ [] else [])
  unfolding get_list append_to
  same_key k key x k0 xs d e =
      let q = ap (λ t. same_signature t k) (same_signature_eq k0 key e) in
      elim (Bool-cases (same_signature key k)) [
        | inl h ↦ rw (e, q ∙ h, h) refl
        | inr h ↦ rw (e, q ∙ h, h) (sym (append-nil (get_list k d)))
      ]

  other_key :
      (k key : Signature) (x : A) (k0 : Signature) (xs : List A) (d : List (Signature × List A))
      → same_signature k0 key ≡ false
      → get_list k (append_to key x d)
        ≡ get_list k d ++ (if same_signature key k then x ∷ [] else [])
      → get_list k (append_to key x ((k0, xs) ∷ d))
        ≡ get_list k ((k0, xs) ∷ d) ++ (if same_signature key k then x ∷ [] else [])
  unfolding get_list append_to
  other_key k key x k0 xs d e ih = elim (Bool-cases (same_signature k0 k)) [
    | inl h ↦ rw (e, h, apart k0 key k e h) (sym (append-nil xs))
    | inr h ↦ rw (e, h) ih
  ]

  get_list-append_to :
      (k key : Signature) (x : A) (d : List (Signature × List A))
      → get_list k (append_to key x d)
        ≡ get_list k d ++ (if same_signature key k then x ∷ [] else [])
  unfolding get_list append_to
  get_list-append_to k key x [] = refl
  get_list-append_to k key x ((k0, xs) ∷ d) = elim (Bool-cases (same_signature k0 key)) [
    | inl e ↦ same_key k key x k0 xs d e
    | inr e ↦ other_key k key x k0 xs d e (get_list-append_to k key x d)
  ]

  pub group_lem :
      (k : Signature) (items : List (Signature × A)) (d : List (Signature × List A))
      → get_list k (group items d) ≡ get_list k d ++ values_of k items
  unfolding group
  group_lem k [] d = sym (append-nil (get_list k d))
  group_lem k ((key, x) ∷ items) d =
      group_lem k items (append_to key x d)
      ∙ ap (λ l. l ++ values_of k items) (get_list-append_to k key x d)
      ∙ append_assoc (get_list k d) (if same_signature key k then x ∷ [] else [])
          (values_of k items)
      ∙ ap (λ l. get_list k d ++ l)
          (elim (Bool-cases (same_signature key k)) [ inl h ↦ rw h refl | inr h ↦ rw h refl ])

values_of-records :
    (key : Signature) (taken : List ℕ) (records : List OrderRecord)
    → values_of key (
        map
          (λ r. (record_signature r, r.broker_order_no))
          (keep_if (λ r. not (contains r.broker_order_no taken)) records))
      ≡ map
          (λ r. r.broker_order_no)
          (keep_if
            (λ r. not (contains r.broker_order_no taken) && same_signature (record_signature r) key)
            records)
values_of-records key taken [] = refl
values_of-records key taken (r ∷ records) = elim (Bool-cases (contains r.broker_order_no taken)) [
  | inl h ↦ rw h (values_of-records key taken records)
  | inr h ↦ elim (Bool-cases (same_signature (record_signature r) key)) [
    | inl e ↦ rw (h, e) (ap (λ l. r.broker_order_no ∷ l) (values_of-records key taken records))
    | inr e ↦ rw (h, e) (values_of-records key taken records)
  ]
]

-- The candidates for a signature are the numbers of all the broker's orders with that ticker, side
-- and quantity whose number is not taken, in the broker's order.
pub get_list-candidates :
    (key : Signature) (taken : List ℕ) (records : List OrderRecord)
    → get_list key (candidates taken records)
      ≡ map
          (λ r. r.broker_order_no)
          (keep_if
            (λ r. not (contains r.broker_order_no taken) && same_signature (record_signature r) key)
            records)
unfolding candidates get_list
get_list-candidates key taken records =
    group_lem key
      (map (λ r. (record_signature r, r.broker_order_no))
        (keep_if (λ r. not (contains r.broker_order_no taken)) records))
      []
    ∙ values_of-records key taken records
