-- ===== src/Execution/UnknownResolver/Free.antt =====
-- Which numbers of the broker's list the resolver offers for a signature, said without its code: those
-- of orders with the signature that no order of the running session has.
use mathlib.Core.Path.{subst}
use short_trading_bot.Base.{
  ℕ, ◌≡◌, ◌≢◌, refl, sym, ap, ◌∙◌, ◌⊎◌, inl, inr, true, false, not, ◌&&◌, some, List, [], ◌∷◌, map,
  keep_if, contains, arith, Bool-cases,
}
use short_trading_bot.Execution.Types.{OrderRecord}
use short_trading_bot.Execution.Store.{Order, PositionRow, Store}
use short_trading_bot.Execution.Session.{order_in_session}
use short_trading_bot.Execution.OrderManager.{market_of}
use short_trading_bot.Execution.UnknownResolver.{
  Signature, same_signature, record_signature, linked, linked_from, get_list, candidates,
}
use short_trading_bot.Execution.UnknownResolver.Offers.{
  same_signature_eq, same_signature_refl, get_list-candidates,
}

-- x is one of the list
abbrev pub IsIn : {A : Type 0} → A → List A → Type 0
IsIn x [] = ⊥
IsIn x (y ∷ ys) = (x ≡ y) ⊎ IsIn x ys

-- No order of the running session has the number.
abbrev pub IsFree : ℕ → List PositionRow → List Order → ℕ → Type 0
IsFree now positions orders n =
    (o : Order)
    → IsIn o orders
    → order_in_session o.created_at (market_of positions o) now ≡ true
    → o.broker_order_no ≢ some n

not_linked-IsFree :
    (now : ℕ) (positions : List PositionRow) (orders : List Order) (n : ℕ)
    → contains n (linked_from now positions orders) ≡ false
    → IsFree now positions orders n
unfolding linked_from
not_linked-IsFree now positions [] n h o m s = absurd m
not_linked-IsFree now positions (x ∷ xs) n h o (inl e) s =
    let here : order_in_session x.created_at (market_of positions x) now ≡ true =
      ap (λ y. order_in_session y.created_at (market_of positions y) now) (sym e) ∙ s in
    λ k.
      let number : x.broker_order_no ≡ some n = ap (λ y. y.broker_order_no) (sym e) ∙ k in
      ground arith
not_linked-IsFree now positions (x ∷ xs) n h o (inr m) s =
    not_linked-IsFree now positions xs n (ground arith) o m s

IsFree-not_linked :
    (now : ℕ) (positions : List PositionRow) (orders : List Order) (n : ℕ)
    → IsFree now positions orders n
    → contains n (linked_from now positions orders) ≡ false
unfolding linked_from
IsFree-not_linked now positions [] n f = refl
IsFree-not_linked now positions (x ∷ xs) n f =
    let rest = IsFree-not_linked now positions xs n (λ o m. f o (inr m)) in
    let first = f x (inl refl) in
    elim (Bool-cases (order_in_session x.created_at (market_of positions x) now)) [
      | inl e ↦ let other = first e in ground arith
      | inr e ↦ ground arith
    ]

-- The broker lists a free number with the signature.
abbrev pub IsOffered : ℕ → Store → List OrderRecord → Signature → ℕ → Type 0
IsOffered now before records key n =
    IsFree now before.positions before.orders n
    × ((r : OrderRecord) × IsIn r records × (r.broker_order_no ≡ n) × (record_signature r ≡ key))

-- the numbers that a search of the list finds
abbrev searched : List ℕ → Signature → List OrderRecord → List ℕ
searched taken key records =
    map (λ r. r.broker_order_no)
      (keep_if
        (λ r. not (contains r.broker_order_no taken) && same_signature (record_signature r) key)
        records)

search_takes :
    (taken : List ℕ) (key : Signature) (r : OrderRecord) (rs : List OrderRecord)
    → (not (contains r.broker_order_no taken) && same_signature (record_signature r) key) ≡ true
    → searched taken key (r ∷ rs) ≡ r.broker_order_no ∷ searched taken key rs
search_takes taken key r rs e = rw e refl

search_skips :
    (taken : List ℕ) (key : Signature) (r : OrderRecord) (rs : List OrderRecord)
    → (not (contains r.broker_order_no taken) && same_signature (record_signature r) key) ≡ false
    → searched taken key (r ∷ rs) ≡ searched taken key rs
search_skips taken key r rs e = rw e refl

searched_sound :
    (taken : List ℕ) (key : Signature) (records : List OrderRecord) (n : ℕ)
    → IsIn n (searched taken key records)
    → (contains n taken ≡ false)
      × ((r : OrderRecord) × IsIn r records × (r.broker_order_no ≡ n) × (record_signature r ≡ key))
searched_sound taken key [] n m = absurd m
searched_sound taken key (r ∷ rs) n m =
    elim (Bool-cases
      (not (contains r.broker_order_no taken) && same_signature (record_signature r) key)) [
        | inl e ↦ elim (subst (IsIn n) (search_takes taken key r rs e) m) [
          | inl h ↦ (
            ap (λ k. contains k taken) h ∙ ground arith,
            (r, inl refl, sym h, same_signature_eq (record_signature r) key (ground arith)),
          )
          | inr h ↦
              let (f, (r', i, a, b)) = searched_sound taken key rs n h in (f, (r', inr i, a, b))
        ]
        | inr e ↦
            let (f, (r', i, a, b)) =
              searched_sound taken key rs n (subst (IsIn n) (search_skips taken key r rs e) m) in
            (f, (r', inr i, a, b))
      ]

searched_complete :
    (taken : List ℕ) (key : Signature) (records : List OrderRecord) (r : OrderRecord)
    → IsIn r records
    → contains r.broker_order_no taken ≡ false
    → record_signature r ≡ key
    → IsIn r.broker_order_no (searched taken key records)
searched_complete taken key [] r m f k = absurd m
searched_complete taken key (x ∷ xs) r (inl e) f k =
    let at = ap (λ y. y.broker_order_no) e in
    let f' = ap (λ y. contains y taken) (sym at) ∙ f in
    let k' : same_signature (record_signature x) key ≡ true =
      ap (λ y. same_signature y key) (ap record_signature (sym e) ∙ k) ∙ same_signature_refl key in
    subst (IsIn r.broker_order_no) (sym (search_takes taken key x xs (ground arith))) (inl at)
searched_complete taken key (x ∷ xs) r (inr m) f k =
    let rest = searched_complete taken key xs r m f k in
    elim (Bool-cases
      (not (contains x.broker_order_no taken) && same_signature (record_signature x) key)) [
        | inl e ↦ rw e (inr rest)
        | inr e ↦ rw e rest
      ]

module _ (now : ℕ) (before : Store) (records : List OrderRecord) (key : Signature) where
  -- what the code looks up
  abbrev pub offered : List ℕ
  offered = get_list key (candidates (linked now before) records)

  pub offered_sound : (n : ℕ) → IsIn n offered → IsOffered now before records key n
  unfolding linked
  offered_sound n m =
      let found = subst (IsIn n) (get_list-candidates key (linked now before) records) m in
      let (f, r) = searched_sound (linked now before) key records n found in
      (not_linked-IsFree now before.positions before.orders n f, r)

  pub offered_complete : (n : ℕ) → IsOffered now before records key n → IsIn n offered
  unfolding linked
  offered_complete n (free, (r, i, a, b)) =
      let f =
        ap (λ k. contains k (linked now before)) a
        ∙ IsFree-not_linked now before.positions before.orders n free in
      subst (λ k. IsIn k offered) a
        (subst (IsIn r.broker_order_no) (sym (get_list-candidates key (linked now before) records))
          (searched_complete (linked now before) key records r i f b))
