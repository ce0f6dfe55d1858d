-- ===== src/Execution/UnknownResolver/Changes.antt =====
-- What the resolver does to the orders.
use short_trading_bot.Base.{
  ℕ, ◌+◌, ◌≤◌, ◌≡◌, refl, sym, ap, ◌∙◌, inl, inr, true, false, not, none, some, List, [], ◌∷◌, ◌++◌,
  map, All, length, find_by, find_by-key, update_by, is_some, ◌||◌, arith, Bool-cases, Option-cases,
  ◌==◌, ltb, ◌⊎◌,
}
use mathlib.Core.Path.{subst}
use mathlib.Core.List.{Mem, mem-cons_self, mem-cons_of_mem}
use short_trading_bot.Domain.Enums.{OrderState, new, rejected, unknown}
use short_trading_bot.Execution.Types.{OrderRecord}
use short_trading_bot.Execution.Store.{Order, AuditLog, Store}
use short_trading_bot.Execution.UnknownResolver.Keys.{Keyed, group-Keyed}
use short_trading_bot.Execution.UnknownResolver.Free.{
  IsIn, IsOffered, offered, offered_sound, offered_complete,
}
use short_trading_bot.Execution.UnknownResolver.Groups.{IsFull, by_signature-IsFull}
use short_trading_bot.Execution.OrderManager.{is_unknown}
use short_trading_bot.Execution.UnknownResolver.{
  order_id_key, is_adoptable, load_unknowns, linked, Signature, order_signature, candidates,
  by_signature, Progress, adopt, expire_found, expire_one, expire_group, resolve_group,
  resolve_groups, poll_once,
}

-- The rows of one list stand in a relation to the rows of another, one by one.
abbrev pub Pairwise : (Order → Order → Type 0) → List Order → List Order → Type 0
Pairwise R [] [] = Unit
Pairwise R (x ∷ xs) (y ∷ ys) = R x y × Pairwise R xs ys
Pairwise R _ _ = ⊥

only : {A : Type 0} (y x : A) → IsIn y (x ∷ []) → y ≡ x
only y x (inl h) = h
only y x (inr h) = absurd h

adoptable_cases : (st : OrderState) → is_adoptable st ≡ true → (st ≡ unknown) ⊎ (st ≡ rejected)
unfolding is_adoptable
adoptable_cases st h = ground arith

module _ (now grace : ℕ) (before : Store) (records : List OrderRecord) where
  -- An order that is unresolved at the first session, with its signature.
  pub record Waits (key : Signature) (id : ℕ) : Type 0 where
    pub order : Order × ℕ
    pub waiting : Mem order (load_unknowns now before)
    pub same : order_signature order ≡ key
    pub same_id : order.0.order_id ≡ id

  -- What may become of a row: it gets the one free number that the broker lists with its signature,
  -- if no other unresolved order has the signature; or the broker lists no free number with its
  -- signature, it is older than the grace time, and it is rejected.
  pub data Change : Order → Order → Type 0 where
    kept : (o : Order) → Change o o
    adopted :
        (o : Order) (key : Signature) (n : ℕ) (w : Waits key o.order_id)
        → IsOffered now before records key n
        → ((m : ℕ) → IsOffered now before records key m → m ≡ n)
        → ((y : Order × ℕ)
            → IsIn y (load_unknowns now before)
            → order_signature y ≡ key
            → y ≡ w.order)
        → (o.state ≡ unknown) ⊎ (o.state ≡ rejected)
        → o.broker_order_no ≡ none
        → Change o (record o { broker_order_no = some n; state = new })
    given_up :
        (o : Order) (key : Signature) (w : Waits key o.order_id)
        → ((m : ℕ) → IsOffered now before records key m → ⊥)
        → w.order.0.created_at + grace ≤ now
        → o.state ≡ unknown
        → Change o (record o { state = rejected })
    next : (a b c : Order) → Change a b → Change b c → Change a c

  Pairwise-kept : (xs : List Order) → Pairwise Change xs xs
  Pairwise-kept [] = tt
  Pairwise-kept (x ∷ xs) = (kept x, Pairwise-kept xs)

  Pairwise-next :
      (xs ys zs : List Order)
      → Pairwise Change xs ys
      → Pairwise Change ys zs
      → Pairwise Change xs zs
  Pairwise-next [] [] [] p q = tt
  Pairwise-next [] [] (z ∷ zs) p q = elim q [ ]
  Pairwise-next [] (y ∷ ys) zs p q = elim p [ ]
  Pairwise-next (x ∷ xs) [] zs p q = elim p [ ]
  Pairwise-next (x ∷ xs) (y ∷ ys) [] p q = elim q [ ]
  Pairwise-next (x ∷ xs) (y ∷ ys) (z ∷ zs) (p, ps) (q, qs) =
      (next x y z p q, Pairwise-next xs ys zs ps qs)

  update_by-Pairwise :
      (id : ℕ) (f : Order → Order) (xs : List Order) (o : Order)
      → find_by order_id_key id xs ≡ some o
      → Change o (f o)
      → Pairwise Change xs (update_by order_id_key id f xs)
  update_by-Pairwise id f [] o e c = tt
  update_by-Pairwise id f (x ∷ xs) o e c = elim (Bool-cases (x.order_id == id)) [
    | inl h ↦ let same = first_found x xs o id h e in rw (h, same) (c, Pairwise-kept xs)
    | inr h ↦ rw h (kept x, update_by-Pairwise id f xs o (later_found x xs o id h e) c)
  ]
    where
      first_found :
          (x : Order) (xs : List Order) (o : Order) (id : ℕ)
          → (x.order_id == id) ≡ true
          → find_by order_id_key id (x ∷ xs) ≡ some o
          → x ≡ o
      first_found x xs o id h e = ground arith

      later_found :
          (x : Order) (xs : List Order) (o : Order) (id : ℕ)
          → (x.order_id == id) ≡ false
          → find_by order_id_key id (x ∷ xs) ≡ some o
          → find_by order_id_key id xs ≡ some o
      later_found x xs o id h e = ground arith

  length-snoc : (xs : List AuditLog) (x : AuditLog) → length (xs ++ x ∷ []) ≡ length xs + 1
  length-snoc [] x = refl
  length-snoc (y ∷ ys) x = omega (arith, length-snoc ys x)

  row_changed :
      (id : ℕ) (f : Order → Order) (row : Order) (st : Store)
      → find_by order_id_key id st.orders ≡ some row
      → Change row (f row)
      → Pairwise Change st.orders (update_by order_id_key row.order_id f st.orders)
  row_changed id f row st e c =
      let same = find_by-key order_id_key id st.orders e in
      update_by-Pairwise row.order_id f st.orders row
        (ap (λ k. find_by order_id_key k st.orders) same ∙ e) c

  -- What one step of the second session keeps: rows change as above, nothing but orders and log is
  -- touched, and every change is counted and logged.
  abbrev pub Advances : Progress → Progress → Type 0
  Advances p p' =
      Pairwise Change p.store.orders p'.store.orders
      × (p'.store.fills ≡ p.store.fills)
      × (p'.store.positions ≡ p.store.positions)
      × (length p'.store.audit + p.resolved ≡ length p.store.audit + p'.resolved)

  Advances-refl : (p : Progress) → Advances p p
  Advances-refl p = (Pairwise-kept p.store.orders, refl, refl, refl)

  Advances-trans : (p q r : Progress) → Advances p q → Advances q r → Advances p r
  Advances-trans p q r (a, b, c, d) (a', b', c', d') = (
    Pairwise-next p.store.orders q.store.orders r.store.orders a a',
    b' ∙ b,
    c' ∙ c,
    omega (arith, d, d'),
  )

  adopt-Advances :
      (key : Signature) (n : ℕ) (x : Order × ℕ) (p : Progress)
      → Mem x (load_unknowns now before)
      → order_signature x ≡ key
      → offered now before records key ≡ n ∷ []
      → ((y : Order × ℕ) → IsIn y (load_unknowns now before) → order_signature y ≡ key → y ≡ x)
      → Advances p (adopt n x.0 p)
  unfolding adopt
  adopt-Advances key n x p mem same off sole =
      elim (Option-cases (find_by order_id_key x.0.order_id p.store.orders)) [
        | inl e ↦ rw e (Advances-refl p)
        | inr (row, e) ↦
            let id = find_by-key order_id_key x.0.order_id p.store.orders e in
            elim (Bool-cases (not (is_adoptable row.state) || is_some row.broker_order_no)) [
              | inl h ↦ rw (e, h) (Advances-refl p)
              | inr h ↦
                  rw (e, h)
                    (
                      row_changed x.0.order_id
                          (λ o. record o { broker_order_no = some n; state = new }) row p.store e
                          (adopted row key n
                            (record { order = x; waiting = mem; same = same; same_id = sym id })
                            (offered_sound now before records key n
                              (subst (IsIn n) (sym off) (inl refl)))
                            (λ m o.
                              only m n
                                (subst (IsIn m) off (offered_complete now before records key m o)))
                            sole (adoptable_cases row.state (ground arith)) (ground arith)),
                      refl,
                      refl,
                      omega (arith, length-snoc p.store.audit _),
                    )
            ]
      ]

  expire_found-Advances :
      (key : Signature) (x : Order × ℕ) (p : Progress)
      → Mem x (load_unknowns now before)
      → order_signature x ≡ key
      → offered now before records key ≡ []
      → x.0.created_at + grace ≤ now
      → Advances p (expire_found now grace (find_by order_id_key x.0.order_id p.store.orders) p)
  unfolding expire_found
  expire_found-Advances key x p mem same off old =
      elim (Option-cases (find_by order_id_key x.0.order_id p.store.orders)) [
        | inl e ↦ rw e (Advances-refl p)
        | inr (row, e) ↦
            let id = find_by-key order_id_key x.0.order_id p.store.orders e in
            elim (Bool-cases (not (is_unknown row.state))) [
              | inl h ↦ rw (e, h) (Advances-refl p)
              | inr h ↦
                  rw (e, h)
                    (
                      row_changed x.0.order_id (λ o. record o { state = rejected }) row p.store e
                          (given_up row key
                            (record { order = x; waiting = mem; same = same; same_id = sym id })
                            (λ m o.
                              subst (IsIn m) off (offered_complete now before records key m o))
                            old (ground arith)),
                      refl,
                      refl,
                      omega (arith, length-snoc p.store.audit _),
                    )
            ]
      ]

  expire_one-Advances :
      (key : Signature) (x : Order × ℕ) (p : Progress)
      → Mem x (load_unknowns now before)
      → order_signature x ≡ key
      → offered now before records key ≡ []
      → Advances p (expire_one now grace x.0 p)
  unfolding expire_one
  expire_one-Advances key x p mem same off = elim (Bool-cases (not (is_unknown x.0.state))) [
    | inl h ↦ rw h (Advances-refl p)
    | inr h ↦ elim (Bool-cases (ltb now (x.0.created_at + grace))) [
      | inl l ↦ rw (h, l) (Advances-refl p)
      | inr l ↦ rw (h, l) (expire_found-Advances key x p mem same off (ground arith))
    ]
  ]

  -- An unresolved order stands under its own signature.
  abbrev pub Own : Signature → Order × ℕ → Type 0
  Own key x = Mem x (load_unknowns now before) × (order_signature x ≡ key)

  expire_group-Advances :
      (key : Signature) (xs : List (Order × ℕ)) (p : Progress)
      → All (Own key) xs
      → offered now before records key ≡ []
      → Advances p (expire_group now grace xs p)
  unfolding expire_group
  expire_group-Advances key [] p a off = Advances-refl p
  expire_group-Advances key (x ∷ xs) p ((mem, same), a) off =
      let p' = expire_one now grace x.0 p in
      Advances-trans p p' (expire_group now grace xs p') (expire_one-Advances key x p mem same off)
        (expire_group-Advances key xs p' a off)

  resolve_group-Advances :
      (key : Signature) (xs : List (Order × ℕ)) (found : List ℕ) (p : Progress)
      → All (Own key) xs
      → IsFull (load_unknowns now before) (key, xs)
      → offered now before records key ≡ found
      → Advances p (resolve_group now grace xs found p)
  unfolding resolve_group expire_group
  resolve_group-Advances key [] [] p a full off = Advances-refl p
  resolve_group-Advances key [] (n ∷ ns) p a full off = Advances-refl p
  resolve_group-Advances key (x ∷ []) (n ∷ []) p ((mem, same), a) full off =
      adopt-Advances key n x p mem same off (λ y m k. only y x (full y m k))
  resolve_group-Advances key (x ∷ []) [] p a full off = expire_group-Advances key (x ∷ []) p a off
  resolve_group-Advances key (x ∷ y ∷ xs) [] p a full off =
      expire_group-Advances key (x ∷ y ∷ xs) p a off
  resolve_group-Advances key (x ∷ []) (n ∷ k ∷ ns) p a full off = Advances-refl p
  resolve_group-Advances key (x ∷ y ∷ xs) (n ∷ ns) p a full off = Advances-refl p

  resolve_groups-Advances :
      (d : List (Signature × List (Order × ℕ))) (p : Progress)
      → Keyed Own d
      → All (IsFull (load_unknowns now before)) d
      → Advances p (resolve_groups now grace d (candidates (linked now before) records) p)
  unfolding resolve_groups
  resolve_groups-Advances [] p h f = Advances-refl p
  resolve_groups-Advances ((key, xs) ∷ d) p (a, h) (full, f) =
      let p' = resolve_group now grace xs (offered now before records key) p in
      Advances-trans p p' (resolve_groups now grace d (candidates (linked now before) records) p')
        (resolve_group-Advances key xs (offered now before records key) p a full refl)
        (resolve_groups-Advances d p' h f)

  signed_lem :
      (xs : List (Order × ℕ))
      → ((x : Order × ℕ) → Mem x xs → Mem x (load_unknowns now before))
      → All (λ (i : Signature × (Order × ℕ)). Own i.0 i.1) (map (λ x. (order_signature x, x)) xs)
  signed_lem [] f = tt
  signed_lem (x ∷ xs) f =
      ((f x mem-cons_self, refl), signed_lem xs (λ y m. f y (mem-cons_of_mem x m)))

  -- A round of the resolver changes the orders only in two ways. It gives an order that is UNKNOWN or
  -- REJECTED and has no number the one number that the broker lists with the ticker, the side and the
  -- quantity and that no order of the session has, when no other unresolved order has these. Or it
  -- gives an UNKNOWN order up after the grace time, when the broker lists no such number. This holds
  -- whatever else has happened to the rows while the broker was asked. It counts and logs every
  -- change, and touches neither fills nor positions.
  pub poll_once_changes :
      (after : Store)
      → let p = poll_once now grace before records after in
        Pairwise Change after.orders p.store.orders
        × (p.store.fills ≡ after.fills)
        × (p.store.positions ≡ after.positions)
        × (length p.store.audit ≡ length after.audit + p.resolved)
  unfolding poll_once by_signature
  poll_once_changes after =
      let (a, b, c, d) =
        resolve_groups-Advances (by_signature (load_unknowns now before))
          (record { store = after; resolved = 0; adopted = [] })
          (group-Keyed Own (map (λ x. (order_signature x, x)) (load_unknowns now before)) []
            (signed_lem (load_unknowns now before) (λ x m. m)) tt)
          (by_signature-IsFull (load_unknowns now before)) in
      (a, b, c, omega (arith, d))
