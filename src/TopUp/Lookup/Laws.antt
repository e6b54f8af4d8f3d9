-- ===== src/TopUp/Lookup/Laws.antt =====
-- The lookups change nothing.
use mathlib.Core.Option
use ai_cinema_be.Common.{ℕ, ◌≡◌, refl, Bool, true, false, not, Option, some, none, String}
use ai_cinema_be.Common.Errors.{
  not_found, bad_request, top_up_not_found, callback_invalid, payment_not_found, Error,
}
use ai_cinema_be.Common.Table.{find_row}
use ai_cinema_be.Common.Action.{Action, or_fail, requires, next}
use ai_cinema_be.TopUp.Rows.{CoinTopUp, Payment, Orders, PaymentProvider, top_up_has_id}
use ai_cinema_be.TopUp.Lookup.{
  TopUpRef, top_up_view, resolve_payment, resolve_attempt, or_by_ref, attempt_by_ref,
  attempt_by_txn, points_elsewhere,
}

-- A read that may fail, and a step that changes nothing after it.
or_fail-same :
    {A B : Type 0} (o : Option A) (e : Error) (st : Orders) (f : A → Action Orders B)
    → ((a : A) → (f a st).1 ≡ st)
    → (next (or_fail o e st) f).1 ≡ st
or_fail-same none e st f h = refl
or_fail-same (some a) e st f h = h a

requires-same :
    {B : Type 0} (t : Bool) (e : Error) (st : Orders) (f : Unit {0} → Action Orders B)
    → (f tt st).1 ≡ st
    → (next (requires t e st) f).1 ≡ st
requires-same true e st f h = h
requires-same false e st f h = refl

pub top_up_view-same : (id : Option ℕ) (st : Orders) → (top_up_view id st).1 ≡ st
unfolding top_up_view
top_up_view-same none st = refl
top_up_view-same (some id) st =
    or_fail-same (find_row id st.top_ups) (not_found top_up_not_found) st _ (λ o. refl)

resolve_attempt-same :
    (ref : Option TopUpRef) (p : Payment) (st : Orders) → (resolve_attempt ref p st).1 ≡ st
unfolding resolve_attempt
resolve_attempt-same ref p st =
    requires-same (not (points_elsewhere ref p.coin_top_up_id)) (bad_request callback_invalid) st _
      (or_fail-same (find_row p.coin_top_up_id st.top_ups) (not_found top_up_not_found) st _
        (λ o. refl))

or_by_ref-same :
    (provider : PaymentProvider) (ref : Option TopUpRef) (p : Option Payment) (st : Orders)
    → (or_by_ref provider ref p st).1 ≡ st
or_by_ref-same provider ref (some p) st = resolve_attempt-same ref p st
or_by_ref-same provider ref none st = found (attempt_by_ref provider ref st)
  where
    found :
        (o : Option (Payment × CoinTopUp))
        → (or_fail {S = Orders} o (not_found payment_not_found) st).1 ≡ st
    found none = refl
    found (some a) = refl

pub resolve_payment-same :
    (provider : PaymentProvider) (txn : Option String) (ref : Option TopUpRef) (st : Orders)
    → (resolve_payment provider txn ref st).1 ≡ st
unfolding resolve_payment
resolve_payment-same provider txn ref st =
    or_by_ref-same provider ref (Option.bind txn (λ t. attempt_by_txn provider t st)) st
