-- ===== src/Api/Throttle/Window.antt =====
-- A client is blocked exactly by its failures within the window.
use mathlib.Core.List.{append-nil}
use short_trading_bot.Base.{
  ℕ, ◌+◌, ◌≤◌, ◌≡◌, refl, sym, ap, ◌∙◌, false, not, some, List, [], ◌∷◌, ◌++◌, arith, ltb, leb,
  length, keep_if, All, get_at, put, get_at-put, ==_refl, Bool-cases, inl, inr,
}
use short_trading_bot.Api.Throttle.{
  Failures, failures_at, drop_old, recent, blocked, record_failure,
}

-- the failures that still count
abbrev pub within : ℕ → ℕ → List ℕ → List ℕ
within window now times = keep_if (λ t. not (ltb (t + window) now)) times

-- oldest first
abbrev pub Ascending : List ℕ → Type 0
Ascending [] = Unit
Ascending (t ∷ times) = All (λ s. t ≤ s) times × Ascending times

-- all are in the window if the oldest is
within-All :
    (window now t : ℕ) (times : List ℕ)
    → ltb (t + window) now ≡ false
    → All (λ s. t ≤ s) times
    → within window now times ≡ times
within-All window now t [] h a = refl
within-All window now t (s ∷ times) h (a, b) = ground (arith, within-All window now t times h b)

drop_old_lem :
    (window now : ℕ) (times : List ℕ)
    → Ascending times
    → drop_old window now times ≡ within window now times
unfolding drop_old
drop_old_lem window now [] a = refl
drop_old_lem window now (t ∷ times) (a, b) = elim (Bool-cases (ltb (t + window) now)) [
  | inl e ↦ rw (e, drop_old) (drop_old_lem window now times b)
  | inr e ↦ rw (e, drop_old) (ap (λ x. t ∷ x) (sym (within-All window now t times e a)))
]

-- a run of failures of one client
unfoldable pub record_all : ℕ → ℕ → List ℕ → Failures → Failures
unfolding record_failure
record_all window client [] fails = fails
record_all window client (t ∷ times) fails =
    record_all window client times (record_failure window client t fails)

within-append :
    (window now : ℕ) (xs ys : List ℕ)
    → within window now (xs ++ ys) ≡ within window now xs ++ within window now ys
within-append window now [] ys = refl
within-append window now (x ∷ xs) ys = ground (arith, within-append window now xs ys)

-- what an earlier look has dropped no longer counts later
within_later :
    (window t now : ℕ) (times : List ℕ)
    → t ≤ now
    → within window now (within window t times) ≡ within window now times
within_later window t now [] h = refl
within_later window t now (s ∷ times) h = ground (arith, within_later window t now times h)

All-within :
    (P : ℕ → Type 0) (window now : ℕ) (times : List ℕ)
    → All P times
    → All P (within window now times)
All-within P window now [] a = tt
All-within P window now (t ∷ times) (a, b) =
    let rest = All-within P window now times b in
    elim (Bool-cases (ltb (t + window) now)) [ inl e ↦ rw e rest | inr e ↦ rw e (a, rest) ]

Ascending-within :
    (window now : ℕ) (times : List ℕ) → Ascending times → Ascending (within window now times)
Ascending-within window now [] a = tt
Ascending-within window now (t ∷ times) (a, b) =
    let rest = Ascending-within window now times b in
    elim (Bool-cases (ltb (t + window) now)) [
      | inl e ↦ rw e rest
      | inr e ↦ rw e (All-within (λ s. t ≤ s) window now times a, rest)
    ]

All-append : (P : ℕ → Type 0) (xs : List ℕ) (t : ℕ) → All P xs → P t → All P (xs ++ t ∷ [])
All-append P [] t a p = (p, tt)
All-append P (x ∷ xs) t (a, b) p = (a, All-append P xs t b p)

Ascending-append :
    (xs : List ℕ) (t : ℕ) → Ascending xs → All (λ s. s ≤ t) xs → Ascending (xs ++ t ∷ [])
Ascending-append [] t a b = (tt, tt)
Ascending-append (x ∷ xs) t (a, b) (c, d) =
    (All-append (λ s. x ≤ s) xs t a c, Ascending-append xs t b d)

record_failure_lem :
    (window client t : ℕ) (fails : Failures)
    → failures_at client (record_failure window client t fails)
      ≡ drop_old window t (failures_at client fails) ++ t ∷ []
unfolding record_failure recent
record_failure_lem window client t fails =
    let q = drop_old window t (failures_at client fails) in
    let at : get_at client (put client (q ++ t ∷ []) (put client q fails)) ≡ some (q ++ t ∷ []) =
      rw (get_at-put, ==_refl client) in
    rw at

-- all of the first come before all of the second
abbrev Before : List ℕ → List ℕ → Type 0
Before [] times = Unit
Before (s ∷ q) times = All (λ t. s ≤ t) times × Before q times

Before-head : (q : List ℕ) (t : ℕ) (times : List ℕ) → Before q (t ∷ times) → All (λ s. s ≤ t) q
Before-head [] t times b = tt
Before-head (s ∷ q) t times ((a, _), b) = (a, Before-head q t times b)

Before-within :
    (window now t : ℕ) (q times : List ℕ)
    → Before q (t ∷ times)
    → All (λ s. t ≤ s) times
    → Before (within window now q ++ t ∷ []) times
Before-within window now t [] times b a = (a, tt)
Before-within window now t (s ∷ q) times ((_, h), b) a =
    let rest = Before-within window now t q times b a in
    elim (Bool-cases (ltb (s + window) now)) [ inl e ↦ rw e rest | inr e ↦ rw e (h, rest) ]

append_one : (xs ys : List ℕ) (t : ℕ) → (xs ++ t ∷ []) ++ ys ≡ xs ++ t ∷ ys
append_one [] ys t = refl
append_one (x ∷ xs) ys t = ap (λ l. x ∷ l) (append_one xs ys t)

record_all_lem :
    (window client now : ℕ) (times : List ℕ) (fails : Failures) (q : List ℕ)
    → failures_at client fails ≡ q
    → Ascending q
    → Before q times
    → Ascending times
    → All (λ t. t ≤ now) times
    → let q' = failures_at client (record_all window client times fails) in
      Ascending q' × (within window now q' ≡ within window now (q ++ times))
unfolding record_all
record_all_lem window client now [] fails q e a b c d =
    (rw e a, ap (within window now) (e ∙ sym (append-nil q)))
record_all_lem window client now (t ∷ times) fails q e a b (c, cs) (d, ds) =
    let next = within window t q ++ t ∷ [] in
    let e' : failures_at client (record_failure window client t fails) ≡ next =
      record_failure_lem window client t fails
      ∙ ap (λ x. drop_old window t x ++ t ∷ []) e
      ∙ ap (λ x. x ++ t ∷ []) (drop_old_lem window t q a) in
    let (asc, eq) =
      record_all_lem window client now times (record_failure window client t fails) next e'
        (Ascending-append (within window t q) t (Ascending-within window t q a)
          (All-within (λ s. s ≤ t) window t q (Before-head q t times b)))
        (Before-within window t t q times b c) cs ds in
    (
      asc,
      eq
          ∙ ap (within window now) (append_one (within window t q) times t)
          ∙ within-append window now (within window t q) (t ∷ times)
          ∙ ap (λ x. x ++ within window now (t ∷ times)) (within_later window t now q d)
          ∙ sym (within-append window now q (t ∷ times)),
    )

-- After failures at rising times, a client is blocked exactly when the number of those within the
-- window reaches the limit: forgetting old failures early never changes the answer.
pub blocked_iff :
    (most window client now : ℕ) (times : List ℕ)
    → Ascending times
    → All (λ t. t ≤ now) times
    → (blocked most window client now (record_all window client times [])).0
      ≡ leb most (length (within window now times))
unfolding blocked recent get_at
blocked_iff most window client now times a b =
    let (asc, eq) = record_all_lem window client now times [] [] refl tt tt a b in
    ap (λ x. leb most (length x))
      (drop_old_lem window now (failures_at client (record_all window client times [])) asc ∙ eq)
