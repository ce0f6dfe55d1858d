-- ===== src/Execution/FillPoller/Resolution.antt =====
-- The order that a number means does not change while fills come in.
use short_trading_bot.Base.{
  ℕ, ◌≡◌, refl, inl, inr, Bool, Option, none, some, List, [], ◌∷◌, arith, ◌==◌, update_by, keep_if,
  Option-cases, Bool-cases, ℕ_discrete,
}
use short_trading_bot.Domain.Enums.{Side, buy, sell, OrderState}
use short_trading_bot.Execution.Types.{Fill}
use short_trading_bot.Execution.Store.{
  Store, Order, PositionRow, order_key, position_key, find_order,
}
use short_trading_bot.Execution.OrderManager.{handle_fill, apply_to_order, market_of, project}
use short_trading_bot.Execution.OrderManager.Fills.{handle_fill_known, handle_fill_missing}
use short_trading_bot.Execution.FillPoller.{is_candidate, latest, later, resolve_order}

-- Two rows of one order, which may differ in its state.
pub record Twin (a b : Order) : Type 0 where
  pub same_order_id : b.order_id ≡ a.order_id
  pub same_client_id : b.client_order_id ≡ a.client_order_id
  pub same_number : b.broker_order_no ≡ a.broker_order_no
  pub same_created : b.created_at ≡ a.created_at
  pub same_lot : b.lot_id ≡ a.lot_id

Twin-refl : (o : Order) → Twin o o
Twin-refl o = ground arith

Twin-state : (s : OrderState) (o : Order) → Twin o (record o { state = s })
Twin-state s o = ground arith

-- Two tables of twins.
pub data Twins : List Order → List Order → Type 0 where
  nil : Twins [] []
  cons : {a b : Order} {as' bs : List Order} → Twin a b → Twins as' bs → Twins (a ∷ as') (b ∷ bs)

Twins-refl : (os : List Order) → Twins os os
Twins-refl [] = nil
Twins-refl (o ∷ os) = cons (Twin-refl o) (Twins-refl os)

Twins-update :
    (k : ℕ) (s : OrderState) (os : List Order)
    → Twins os (update_by order_key k (λ o. record o { state = s }) os)
Twins-update k s [] = nil
Twins-update k s (o ∷ os) = elim (Bool-cases (o.client_order_id == k)) [
  | inl e ↦ rw e (cons (Twin-state s o) (Twins-refl os))
  | inr e ↦ rw e (cons (Twin-refl o) (Twins-update k s os))
]

-- The market that an order is joined with is not changed by a fill of any lot.
project-market :
    (quot : ℕ → ℕ → ℕ) (now : ℕ) (side : Side) (f : Fill) (p : PositionRow)
    → ((project quot now side f p).market ≡ p.market)
      × (position_key (project quot now side f p) ≡ position_key p)
unfolding project
project-market quot now buy f p = (refl, refl)
project-market quot now sell f p = (refl, refl)

market_of-update :
    (k : ℕ) (g : PositionRow → PositionRow) (ps : List PositionRow) (o : Order)
    → ((p : PositionRow) → ((g p).market ≡ p.market) × (position_key (g p) ≡ position_key p))
    → market_of (update_by position_key k g ps) o ≡ market_of ps o
unfolding market_of
market_of-update k g [] o e = refl
market_of-update k g (p ∷ ps) o e = ground (arith, (e p).0, (e p).1, market_of-update k g ps o e)

market_of_lot :
    (ps : List PositionRow) (a b : Order) → b.lot_id ≡ a.lot_id → market_of ps b ≡ market_of ps a
unfolding market_of
market_of_lot ps a b e = rw e

module _ (now : ℕ) (day : Option ℕ) (number : ℕ) where
  candidate-Twin :
      (ps qs : List PositionRow) (a b : Order)
      → ((o : Order) → market_of qs o ≡ market_of ps o)
      → Twin a b
      → is_candidate now qs day number b ≡ is_candidate now ps day number a
  unfolding is_candidate
  candidate-Twin ps qs a b e t = ground (arith, e b, market_of_lot ps a b t.same_lot)

  keep-Twins :
      (ps qs : List PositionRow) {xs ys : List Order}
      → ((o : Order) → market_of qs o ≡ market_of ps o)
      → Twins xs ys
      → Twins
          (keep_if (is_candidate now ps day number) xs)
          (keep_if (is_candidate now qs day number) ys)
  keep-Twins ps qs e nil = nil
  keep-Twins ps qs e (cons {a = a} {b = b} t ts) =
      elim (Bool-cases (is_candidate now ps day number a)) [
        | inl c ↦ rw (candidate-Twin ps qs a b e t, c) (cons t (keep-Twins ps qs e ts))
        | inr c ↦ rw (candidate-Twin ps qs a b e t, c) (keep-Twins ps qs e ts)
      ]

-- The first of the latest is the same order.
abbrev pub OptionTwin : Option Order → Option Order → Type 0
OptionTwin none none = Unit
OptionTwin (some a) (some b) = Twin a b
OptionTwin _ _ = ⊥

pub OptionTwin-refl : (o : Option Order) → OptionTwin o o
OptionTwin-refl none = tt
OptionTwin-refl (some o) = Twin-refl o

later-Twin :
    (a b : Order) (x y : Option Order) → Twin a b → OptionTwin x y → Twin (later a x) (later b y)
later-Twin a b none none t h = t
later-Twin a b (some x) (some y) t h = ground arith
later-Twin a b none (some y) t h = absurd h
later-Twin a b (some x) none t h = absurd h

latest-Twins : {xs ys : List Order} → Twins xs ys → OptionTwin (latest xs) (latest ys)
unfolding latest
latest-Twins nil = tt
latest-Twins (cons t ts) = later-Twin _ _ _ _ t (latest-Twins ts)

-- A fill leaves every number with the order that it had, and with none where it had none.
pub resolve_order-handle_fill :
    (autoflush : Bool) (quot : ℕ → ℕ → ℕ) (now now' number : ℕ) (day : Option ℕ) (fill : Fill)
    (st : Store)
    → OptionTwin
        (resolve_order now' day number st)
        (resolve_order now' day number (handle_fill autoflush quot now fill st))
unfolding resolve_order apply_to_order
resolve_order-handle_fill autoflush quot now now' number day fill st =
    elim (Option-cases (find_order fill.client_order_id st.orders)) [
      | inl e ↦ rw (handle_fill_missing autoflush quot now fill st e) (latest-Twins (Twins-refl _))
      | inr (o, e) ↦ rw (handle_fill_known autoflush quot now fill st e) (
          latest-Twins (
            keep-Twins now' day number st.positions _
              (λ p.
                market_of-update o.lot_id _ st.positions p (project-market quot now o.side fill))
              (Twins-update fill.client_order_id _ st.orders)))
    ]

-- Every row is the one that a select by its id finds: the id is unique.
abbrev pub IsDistinct : List Order → Type 0
IsDistinct [] = Unit
IsDistinct (o ∷ os) = (find_order o.client_order_id os ≡ none) × IsDistinct os

find_none-Twins :
    (k : ℕ) {xs ys : List Order} → Twins xs ys → find_order k xs ≡ none → find_order k ys ≡ none
find_none-Twins k nil h = refl
find_none-Twins k (cons t ts) h = ground (arith, find_none-Twins k ts)

IsDistinct-Twins : {xs ys : List Order} → Twins xs ys → IsDistinct xs → IsDistinct ys
IsDistinct-Twins nil d = tt
IsDistinct-Twins (cons {a = a} {b = b} t ts) d =
    (rw t.same_client_id (find_none-Twins a.client_order_id ts d.0), IsDistinct-Twins ts d.1)

pub handle_fill-IsDistinct :
    (autoflush : Bool) (quot : ℕ → ℕ → ℕ) (now : ℕ) (fill : Fill) (st : Store)
    → IsDistinct st.orders
    → IsDistinct (handle_fill autoflush quot now fill st).orders
unfolding apply_to_order
handle_fill-IsDistinct autoflush quot now fill st d =
    elim (Option-cases (find_order fill.client_order_id st.orders)) [
      | inl e ↦ rw (handle_fill_missing autoflush quot now fill st e) d
      | inr (o, e) ↦
          rw (handle_fill_known autoflush quot now fill st e)
            (IsDistinct-Twins (Twins-update fill.client_order_id _ st.orders) d)
    ]

-- A row of the tail is found past a head with another id.
find_tail :
    (x : Order) (xs : List Order) (o : Order)
    → find_order x.client_order_id xs ≡ none
    → find_order o.client_order_id xs ≡ some o
    → find_order o.client_order_id (x ∷ xs) ≡ some o
find_tail x xs o n h = elim (ℕ_discrete x.client_order_id o.client_order_id) [
  | yes e ↦ cc
  | no e ↦ ground arith
]

-- With unique ids the row that a number means is found by its id.
latest-find :
    (p : Order → Bool) (os : List Order) {o : Order}
    → IsDistinct os
    → latest (keep_if p os) ≡ some o
    → find_order o.client_order_id os ≡ some o
unfolding latest
latest-find p [] d h = cc
latest-find p (x ∷ xs) {o} d h = ground (arith, latest-find p xs {o = o} d.1, find_tail x xs o d.0)

pub resolve_order-find :
    (now number : ℕ) (day : Option ℕ) (st : Store) {o : Order}
    → IsDistinct st.orders
    → resolve_order now day number st ≡ some o
    → find_order o.client_order_id st.orders ≡ some o
unfolding resolve_order
resolve_order-find now number day st d h = latest-find _ st.orders d h
