-- ===== src/Execution/UnknownResolver.antt =====
-- short_trading_bot/execution/unknown_resolver.py: what becomes of an order whose submission timed
-- out. The broker's list of the day's orders is an argument, and so is the database as it is when
-- the answer has come: other tasks run while the broker is asked.
pub mod Offers
pub mod Keys
pub mod Changes
pub mod Adoption
pub mod Free
pub mod Groups
use short_trading_bot.Base.{
  ℕ, suc, ◌+◌, Bool, true, false, not, ◌&&◌, ◌||◌, Option, none, some, List, [], ◌∷◌, ◌++◌, map,
  ltb, ◌==◌, if◌then◌else◌, is_some, keep_if, contains, find_by, update_by,
}
use short_trading_bot.Domain.Enums.{Side, is_buy, OrderState, new, rejected, unknown}
use short_trading_bot.Execution.Types.{OrderRecord}
use short_trading_bot.Execution.Store.{
  Order, PositionRow, AuditLog, Store, EventType, order_unknown_adopted, order_unknown_readopted,
  order_unknown_expired, find_position,
}
use short_trading_bot.Execution.Session.{order_in_session}
use short_trading_bot.Execution.OrderManager.{is_unknown, market_of, audit_row}

abbrev pub order_id_key : Order → ℕ
order_id_key o = o.order_id

-- `_ADOPTABLE_STATES`
unfoldable pub is_adoptable : OrderState → Bool
is_adoptable unknown = true
is_adoptable rejected = true
is_adoptable _ = false

abbrev is_expired_event : EventType → Bool
is_expired_event order_unknown_expired = true
is_expired_event _ = false

-- The client_order_ids of the orders that the resolver has presumed expired.
unfoldable pub presumed : List AuditLog → List ℕ
presumed audit = map (λ a. a.client_order_id) (keep_if (λ a. is_expired_event a.event_type) audit)

module _ (now : ℕ) where
  -- the conditions on one row: those of the select, and those on what it has selected
  unfoldable pub is_unresolved : Store → Order → Bool
  unfolding is_adoptable presumed market_of
  is_unresolved st o =
      is_adoptable o.state
      && not (is_some o.broker_order_no)
      && (is_unknown o.state
          || contains o.client_order_id (presumed st.audit)
            && order_in_session o.created_at (market_of st.positions o) now)

  -- the inner join with the ticker of the position
  abbrev with_ticker : Option PositionRow → Order → List (Order × ℕ) → List (Order × ℕ)
  with_ticker none o rest = rest
  with_ticker (some p) o rest = (o, p.ticker) ∷ rest

  load_from : Store → List Order → List (Order × ℕ)
  unfolding is_unresolved
  load_from st [] = []
  load_from st (o ∷ rest) =
      let more = load_from st rest in
      if is_unresolved st o then with_ticker (find_position o.lot_id st.positions) o more else more

  -- `_load_unknowns`
  unfoldable pub load_unknowns : Store → List (Order × ℕ)
  unfolding load_from
  load_unknowns st = load_from st st.orders

  -- the numbers that orders of the running session have
  abbrev number_of : Option ℕ → List ℕ → List ℕ
  number_of none rest = rest
  number_of (some no_) rest = no_ ∷ rest

  linked_from : List PositionRow → List Order → List ℕ
  unfolding market_of
  linked_from positions [] = []
  linked_from positions (o ∷ rest) =
      let more = linked_from positions rest in
      if order_in_session o.created_at (market_of positions o) now
      then number_of o.broker_order_no more
      else more

  unfoldable pub linked : Store → List ℕ
  unfolding linked_from
  linked st = linked_from st.positions st.orders

-- the key of the two dictionaries
pub record Signature : Type 0 where
  pub ticker : ℕ
  pub side : Side
  pub qty : ℕ

abbrev same_side : Side → Side → Bool
same_side a b = if is_buy a then is_buy b else not (is_buy b)

unfoldable pub same_signature : Signature → Signature → Bool
same_signature a b = a.ticker == b.ticker && same_side a.side b.side && a.qty == b.qty

abbrev pub record_signature : OrderRecord → Signature
record_signature r = record { ticker = r.ticker; side = r.side; qty = r.qty }

abbrev pub order_signature : Order × ℕ → Signature
order_signature p = record { ticker = p.1; side = p.0.side; qty = p.0.qty }

-- `d.setdefault(key, []).append(x)`
unfoldable pub append_to {ℓ} :
    {A : Type ℓ} → Signature → A → List (Signature × List A) → List (Signature × List A)
append_to key x [] = (key, x ∷ []) ∷ []
append_to key x ((k, xs) ∷ d) =
    let rest = append_to key x d in
    if same_signature k key then (k, xs ++ x ∷ []) ∷ d else (k, xs) ∷ rest

-- `d.get(key, [])`
unfoldable pub get_list {ℓ} : {A : Type ℓ} → Signature → List (Signature × List A) → List A
get_list key [] = []
get_list key ((k, xs) ∷ d) = let rest = get_list key d in if same_signature k key then xs else rest

-- the loops that fill the dictionaries
unfoldable pub group {ℓ} :
    {A : Type ℓ} → List (Signature × A) → List (Signature × List A) → List (Signature × List A)
unfolding append_to
group [] d = d
group ((key, x) ∷ rest) d = group rest (append_to key x d)

unfoldable pub candidates : List ℕ → List OrderRecord → List (Signature × List ℕ)
unfolding group
candidates taken records =
    group
      (map (λ r. (record_signature r, r.broker_order_no))
        (keep_if (λ r. not (contains r.broker_order_no taken)) records))
      []

unfoldable pub by_signature : List (Order × ℕ) → List (Signature × List (Order × ℕ))
unfolding group
by_signature unknowns = group (map (λ p. (order_signature p, p)) unknowns) []

-- What the second session has done: the database, the count, and the adopted orders.
pub record Progress : Type 0 where
  pub store : Store
  pub resolved : ℕ
  pub adopted : List ℕ

-- a row is assigned to and an entry is added to the log
abbrev pub change : EventType → Order → (Order → Order) → Store → Store
change event row f st = record st {
  orders = update_by order_id_key row.order_id f st.orders;
  audit = st.audit ++ audit_row event row.lot_id row.client_order_id ∷ [];
}

-- the branch of one order and one number
adopt_row : ℕ → Option Order → Progress → Progress
unfolding is_adoptable
adopt_row number none p = p
adopt_row number (some row) p =
    if not (is_adoptable row.state) || is_some row.broker_order_no then p else record {
      store =
          change (if is_unknown row.state then order_unknown_adopted else order_unknown_readopted)
            row (λ o. record o { broker_order_no = some number; state = new }) p.store;
      resolved = suc p.resolved;
      adopted = p.adopted ++ row.client_order_id ∷ [];
    }

unfoldable pub adopt : ℕ → Order → Progress → Progress
unfolding adopt_row
adopt number order p = adopt_row number (find_by order_id_key order.order_id p.store.orders) p

module _ (now grace : ℕ) where
  unfoldable pub expire_found : Option Order → Progress → Progress
  expire_found none p = p
  expire_found (some row) p = if not (is_unknown row.state) then p else record p {
    store = change order_unknown_expired row (λ o. record o { state = rejected }) p.store;
    resolved = suc p.resolved;
  }

  -- the body of the loop over orders that the broker does not know
  unfoldable pub expire_one : Order → Progress → Progress
  unfolding expire_found
  expire_one order p =
      if not (is_unknown order.state)
      then p
      else if ltb now (order.created_at + grace)
      then p
      else expire_found (find_by order_id_key order.order_id p.store.orders) p

  unfoldable pub expire_group : List (Order × ℕ) → Progress → Progress
  unfolding expire_one
  expire_group [] p = p
  expire_group (x ∷ rest) p = expire_group rest (expire_one x.0 p)

  -- the three branches for a group and the numbers with its signature
  unfoldable pub resolve_group : List (Order × ℕ) → List ℕ → Progress → Progress
  unfolding adopt expire_group
  resolve_group (x ∷ []) (number ∷ []) p = adopt number x.0 p
  resolve_group xs [] p = expire_group xs p
  resolve_group _ _ p = p

  unfoldable pub resolve_groups :
      List (Signature × List (Order × ℕ)) → List (Signature × List ℕ) → Progress → Progress
  unfolding resolve_group
  resolve_groups [] found p = p
  resolve_groups ((key, xs) ∷ rest) found p =
      resolve_groups rest found (resolve_group xs (get_list key found) p)

  -- `poll_once`, with the database at its first session, the answer of the broker, and the database
  -- at its second session
  unfoldable pub poll_once : Store → List OrderRecord → Store → Progress
  unfolding load_unknowns linked candidates by_signature resolve_groups
  poll_once before records after =
      resolve_groups (by_signature (load_unknowns now before))
        (candidates (linked now before) records)
        (record { store = after; resolved = 0; adopted = [] })
