-- ===== src/App/Service/Watchlist/Uniqueness.antt =====
-- A ticker has one template for a resolution, and a template that joined for one round has one lot.
use short_trading_bot.Base.{
  ℕ, ◌≡◌, refl, sym, ap, ◌∙◌, Bool, true, false, Option, none, some, List, [], ◌∷◌, ◌++◌, arith,
  ◌==◌, is_some, or_else, All, get_at, put, get_at-put, Bool-cases, Option-cases, inl, inr,
}
use short_trading_bot.Domain.Enums.{Resolution, PositionState}
use short_trading_bot.Domain.Position.{Lot, is_terminal}
use short_trading_bot.App.Service.State.{World}
use short_trading_bot.App.Service.Restore.{is_watching}
use short_trading_bot.App.Service.Watchlist.{
  Template, Watch, same_resolution, same_template, first_with, templates_of, look, without,
  assigned, settled, add_template, remove_first, remove_template, slot_lot, route_bar,
}

same_resolution-eq : (a b : Resolution) → same_resolution a b ≡ true → a ≡ b
same_resolution-eq a b h = ground arith

same_resolution_refl : (a : Resolution) → same_resolution a a ≡ true
same_resolution_refl a = ground arith

same_template_refl : (t : Template) → same_template t t ≡ true
same_template_refl t = ground arith

same_template-resolution : (s t : Template) → same_template s t ≡ true → s.resolution ≡ t.resolution
same_template-resolution s t h = same_resolution-eq s.resolution t.resolution (ground arith)

-- no two have the same resolution
abbrev pub OneEach : List Template → Type 0
OneEach [] = Unit
OneEach (t ∷ ts) = (first_with t.resolution ts ≡ none) × OneEach ts

abbrev pub IsUnique : Watch → Type 0
IsUnique watch = All (λ e. OneEach e.1) watch.by_ticker

first_with-append :
    (r : Resolution) (t : Template) (ts : List Template)
    → same_resolution t.resolution r ≡ false
    → first_with r ts ≡ none
    → first_with r (ts ++ t ∷ []) ≡ none
first_with-append r t [] d h = ground arith
first_with-append r t (s ∷ ts) d h = ground (arith, first_with-append r t ts)

OneEach-append :
    (t : Template) (ts : List Template)
    → OneEach ts
    → first_with t.resolution ts ≡ none
    → OneEach (ts ++ t ∷ [])
OneEach-append t [] u h = (refl, tt)
OneEach-append t (s ∷ ts) (n, u) h =
    (first_with-append s.resolution t ts (ground arith) n, OneEach-append t ts u (ground arith))

first_with-remove_first :
    (r : Resolution) (t : Template) (ts : List Template)
    → first_with r ts ≡ none
    → first_with r (remove_first t ts) ≡ none
unfolding remove_first
first_with-remove_first r t [] h = refl
first_with-remove_first r t (s ∷ ts) h = ground (arith, first_with-remove_first r t ts)

OneEach-remove_first :
    (t : Template) (ts : List Template) → OneEach ts → OneEach (remove_first t ts)
unfolding remove_first
OneEach-remove_first t [] u = tt
OneEach-remove_first t (s ∷ ts) (n, u) =
    let rest = OneEach-remove_first t ts u in
    elim (Bool-cases (same_template s t)) [
      | inl e ↦ rw e u
      | inr e ↦ rw e (first_with-remove_first s.resolution t ts n, rest)
    ]

first_with-resolution :
    (r : Resolution) (ts : List Template) {t : Template}
    → first_with r ts ≡ some t
    → t.resolution ≡ r
first_with-resolution r [] h = ground arith
first_with-resolution r (s ∷ ts) {t} h = elim (Bool-cases (same_resolution s.resolution r)) [
  | inl e ↦ let same = same_resolution-eq s.resolution r e in ground arith
  | inr e ↦ first_with-resolution r ts {t = t} (ground arith)
]

-- the one template of the resolution is gone
removed_first :
    (r : Resolution) (ts : List Template) {t : Template}
    → OneEach ts
    → first_with r ts ≡ some t
    → first_with r (remove_first t ts) ≡ none
unfolding remove_first
removed_first r [] u h = ground arith
removed_first r (s ∷ ts) {t} (n, u) h = elim (Bool-cases (same_resolution s.resolution r)) [
  | inl e ↦
      let eq : s ≡ t = ground arith in
      let same : same_template s t ≡ true = ap (λ x. same_template x t) eq ∙ same_template_refl t in
      let at = same_resolution-eq s.resolution r e in
      rw same (ap (λ x. first_with x ts) (sym at) ∙ n)
  | inr e ↦
      let h' : first_with r ts ≡ some t = ground arith in
      let at = first_with-resolution r ts h' in
      elim (Bool-cases (same_template s t)) [
        | inl k ↦
            let clash : same_resolution s.resolution r ≡ true =
              ap (λ x. same_resolution x r) (same_template-resolution s t k ∙ at)
              ∙ same_resolution_refl r in
            ground arith
        | inr k ↦ rw (k, e) (removed_first r ts u h')
      ]
]

All-put :
    {A : Type 0} (P : A → Type 0) (k : ℕ) (x : A) (d : List (ℕ × A))
    → All (λ e. P e.1) d
    → P x
    → All (λ e. P e.1) (put k x d)
unfolding put
All-put P k x [] a p = (p, tt)
All-put P k x ((i, y) ∷ d) (q, a) p =
    let rest = All-put P k x d a p in
    elim (Bool-cases (i == k)) [ inl e ↦ rw e (p, a) | inr e ↦ rw e (q, rest) ]

OneEach-templates_of :
    (ticker : ℕ) (d : List (ℕ × List Template))
    → All (λ e. OneEach e.1) d
    → OneEach (or_else (get_at ticker d) [])
unfolding get_at
OneEach-templates_of ticker [] a = tt
OneEach-templates_of ticker ((i, y) ∷ d) (q, a) =
    let rest = OneEach-templates_of ticker d a in
    elim (Bool-cases (i == ticker)) [ inl e ↦ rw e q | inr e ↦ rw e rest ]

-- Adding a template to a watchlist with one template at most for each ticker and resolution keeps it
-- so, and so does removing one.
pub add_template-IsUnique :
    (ticker : ℕ) (t : Template) (one_shot : Bool) (watch : Watch)
    → IsUnique watch
    → IsUnique (add_template ticker t one_shot watch).0 × IsUnique (remove_template ticker t watch)
unfolding add_template remove_template
add_template-IsUnique ticker t one_shot watch u =
    let one = OneEach-templates_of ticker watch.by_ticker u in
    (
      elim (Option-cases (first_with t.resolution (templates_of ticker watch))) [
        | inl e ↦ rw e (
            All-put OneEach ticker _ watch.by_ticker u
              (OneEach-append t (templates_of ticker watch) one e))
        | inr (s, e) ↦ rw e u
      ],
      elim (Bool-cases (is_some (get_at ticker watch.by_ticker))) [
        | inl e ↦ rw e (
            All-put OneEach ticker _ watch.by_ticker u
              (OneEach-remove_first t (templates_of ticker watch) one))
        | inr e ↦ rw e u
      ],
    )

look-without :
    {A : Type 0} (key : ℕ × Resolution) (d : List ((ℕ × Resolution) × A))
    → look key (without key d) ≡ none
look-without key [] = refl
look-without key ((k, x) ∷ d) = ground (arith, look-without key d)

look-assigned :
    {A : Type 0} (key : ℕ × Resolution) (x : A) (d : List ((ℕ × Resolution) × A))
    → look key (assigned key x d) ≡ some x
look-assigned key x [] = ground arith
look-assigned key x ((k, y) ∷ d) = ground (arith, look-assigned key x d)

terminal_is_not_watching : (st : PositionState) → is_terminal st ≡ true → is_watching st ≡ false
unfolding is_terminal
terminal_is_not_watching st h = ground arith

templates_of-remove_template :
    (ticker : ℕ) (t : Template) (watch : Watch)
    → templates_of ticker (remove_template ticker t watch)
      ≡ remove_first t (templates_of ticker watch)
unfolding remove_template remove_first
templates_of-remove_template ticker t watch = elim (Option-cases (get_at ticker watch.by_ticker)) [
  | inl e ↦ rw e (rw e refl)
  | inr (ts, e) ↦ rw e (
      ap (λ x. or_else x []) (get_at-put ticker ticker (remove_first t ts) watch.by_ticker)
      ∙ ground arith)
]

settled_once :
    (takes : Bool) (id ticker : ℕ) (t : Template) (lot : Lot) (w : World) (watch : Watch)
    (r : Resolution) (joined : Option ℕ)
    → IsUnique watch
    → first_with r (templates_of ticker watch) ≡ some t
    → is_terminal lot.state ≡ true
    → look (ticker, t.resolution) watch.one_shot ≡ some joined
    → let s = (settled takes id ticker t (some lot) (w, watch)).0 in
      (s.0 ≡ w)
      × (first_with r (templates_of ticker s.1) ≡ none)
      × (look (ticker, t.resolution) s.1.one_shot ≡ none)
settled_once takes id ticker t lot w watch r joined u f e o =
    let one = OneEach-templates_of ticker watch.by_ticker u in
    rw (e, o)
      (
        refl,
        ap (first_with r) (templates_of-remove_template ticker t watch)
            ∙ removed_first r (templates_of ticker watch) one f,
        unfold remove_template in look-without (ticker, t.resolution) watch.one_shot,
      )

-- In a watchlist with one template at most for each ticker and resolution, when the lot of a slot has
-- ended and its template joined for one round, the choice of the lot for the next bar makes no new
-- lot: memory and the database stay as they are, no template of the resolution is left, and the mark
-- of the round is gone.
pub route_bar_once :
    (now day : ℕ) (takes : Template → Bool) (id ticker : ℕ) (r : Resolution) (w : World)
    (watch : Watch) (t : Template) (lot : Lot) (joined : Option ℕ)
    → IsUnique watch
    → first_with r (templates_of ticker watch) ≡ some t
    → slot_lot (ticker, r) w ≡ some lot
    → is_terminal lot.state ≡ true
    → look (ticker, t.resolution) watch.one_shot ≡ some joined
    → let s = (route_bar now day takes id ticker r (w, watch)).0 in
      (s.0 ≡ w)
      × (first_with r (templates_of ticker s.1) ≡ none)
      × (look (ticker, t.resolution) s.1.one_shot ≡ none)
unfolding route_bar remove_template is_terminal
route_bar_once now day takes id ticker r w watch t lot none u f l e o =
    rw (f, l, o)
      (settled_once (takes t) id ticker t lot w _ r (some day) u f e
        (look-assigned (ticker, t.resolution) (some day) watch.one_shot))
route_bar_once now day takes id ticker r w watch t lot (some d) u f l e o =
    rw (f, l, o, terminal_is_not_watching lot.state e)
      (settled_once (takes t) id ticker t lot w watch r (some d) u f e o)
