-- ===== src/TopUp/Lookup.antt =====
-- topup-lookup.service.ts: the reads of orders and payment attempts. `listMine` is left out: it is a
-- page of the paginator.
pub mod Laws
use mathlib.Core.Option
use ai_cinema_be.Common.{
  false, ℕ, Bool, not, ◌&&◌, Option, none, some, String, List, [], ◌∷◌, str_eq, if◌then◌else◌, ltb,
  ◌==◌,
}
use ai_cinema_be.Common.Lists.{find}
use ai_cinema_be.Common.Table.{find_row}
use ai_cinema_be.Common.Action.{Action, done, fail, reads, or_fail, requires, ◌>>=◌, ◌>>◌}
use ai_cinema_be.Common.Errors.{
  payment_not_found, record_not_found, bad_request, not_found, callback_invalid, top_up_not_found,
}
use ai_cinema_be.TopUp.Rows.{
  CoinTopUp, Payment, Orders, OrderView, PaymentProvider, order_view, same_provider, top_up_has_id,
}

-- The text of an order id in a request: as the database prints it, the same uuid with other capitals
-- (which the database finds, and which `===` tells apart), or no uuid at all.
pub data TopUpRef : Type 0 where
  canonical other_case : ℕ → TopUpRef
  malformed : TopUpRef

-- `isUuid`, as the number that the database looks up.
abbrev pub uuid_of : TopUpRef → Option ℕ
uuid_of (canonical id) = some id
uuid_of (other_case id) = some id
uuid_of malformed = none

-- `ref !== id`
abbrev pub is_ref_of : ℕ → TopUpRef → Bool
is_ref_of id (canonical other) = other == id
is_ref_of id (other_case other) = false
is_ref_of id malformed = false

-- `findUnique({ where: { provider_providerTxnId } })`
abbrev pub is_attempt : PaymentProvider → String → Payment → Bool
is_attempt provider txn p = same_provider p.provider provider && str_eq p.provider_txn_id txn

unfoldable pub attempt_by_txn : PaymentProvider → String → Orders → Option Payment
attempt_by_txn provider txn st = find (is_attempt provider txn) st.payments

abbrev pub newer : Payment → Option Payment → Option Payment
newer p none = some p
newer p (some q) = if ltb p.created_at q.created_at then some q else some p

-- `findFirst({ where, orderBy: { createdAt: 'desc' } })`
unfoldable pub newest : (Payment → Bool) → List Payment → Option Payment
newest test [] = none
newest test (p ∷ ps) = let rest = newest test ps in if test p then newer p rest else rest

abbrev pub is_attempt_on : ℕ → PaymentProvider → Payment → Bool
is_attempt_on top_up_id provider p =
    p.coin_top_up_id == top_up_id && same_provider p.provider provider

-- `latestPaymentOf` and `latestPayment`
unfoldable pub latest_payment_of : ℕ → PaymentProvider → Orders → Option Payment
latest_payment_of top_up_id provider st = newest (is_attempt_on top_up_id provider) st.payments

unfoldable pub latest_payment : ℕ → Orders → Option Payment
latest_payment top_up_id st = newest (λ (p : Payment). p.coin_top_up_id == top_up_id) st.payments

unfoldable pub top_up_view : Option ℕ → Action Orders OrderView
top_up_view none = fail (not_found top_up_not_found)
top_up_view (some id) = do
  found ← reads (λ st. find_row id st.top_ups)
  o ← or_fail found (not_found top_up_not_found)
  payment ← reads (latest_payment o.id)
  done (order_view o payment)

abbrev pub if_owned_by : ℕ → Option CoinTopUp → Option CoinTopUp
if_owned_by user none = none
if_owned_by user (some o) = if o.user_id == user then some o else none

unfoldable pub find_mine : ℕ → ℕ → Action Orders OrderView
find_mine user top_up_id = do
  found ← reads (λ st. if_owned_by user (find_row top_up_id st.top_ups))
  o ← or_fail found (not_found top_up_not_found)
  payment ← reads (latest_payment o.id)
  done (order_view o payment)

-- The two ways of `findForReturn`.
unfoldable pub return_by_id : PaymentProvider → ℕ → Action Orders OrderView
return_by_id provider id = do
  found ← reads (λ st. find_row id st.top_ups)
  o ← or_fail found (not_found top_up_not_found)
  attempt ← reads (latest_payment_of o.id provider)
  payment ← or_fail attempt (not_found top_up_not_found)
  done (order_view o (some payment))

unfoldable pub return_by_txn : PaymentProvider → String → Action Orders OrderView
return_by_txn provider txn = do
  attempt ← reads (attempt_by_txn provider txn)
  payment ← or_fail attempt (not_found top_up_not_found)
  found ← reads (λ st. find_row payment.coin_top_up_id st.top_ups)
  o ← or_fail found record_not_found
  done (order_view o (some payment))

-- An empty text counts as none.
unfoldable pub find_for_return :
    PaymentProvider → Option TopUpRef → Option String → Action Orders OrderView
find_for_return provider (some ref) txn = elim (uuid_of ref) [
  | none ↦ fail (bad_request callback_invalid)
  | some id ↦ return_by_id provider id
]
find_for_return provider none (some txn) =
    if str_eq txn "" then fail (bad_request callback_invalid) else return_by_txn provider txn
find_for_return provider none none = fail (bad_request callback_invalid)

-- `callback.topUpId && callback.topUpId !== payment.coinTopUpId`
abbrev pub points_elsewhere : Option TopUpRef → ℕ → Bool
points_elsewhere none id = false
points_elsewhere (some ref) id = not (is_ref_of id ref)

-- The order of an attempt that the gateway's own reference found.
unfoldable pub resolve_attempt : Option TopUpRef → Payment → Action Orders (Payment × CoinTopUp)
resolve_attempt ref payment = do
  requires (not (points_elsewhere ref payment.coin_top_up_id)) (bad_request callback_invalid)
  found ← reads (λ st. find_row payment.coin_top_up_id st.top_ups)
  o ← or_fail found (not_found top_up_not_found)
  done (payment, o)

abbrev pub with_order : CoinTopUp → Option Payment → Option (Payment × CoinTopUp)
with_order o none = none
with_order o (some payment) = some (payment, o)

-- The newest attempt of the provider on the order that the reference names.
unfoldable pub attempt_by_ref :
    PaymentProvider → Option TopUpRef → Orders → Option (Payment × CoinTopUp)
attempt_by_ref provider ref st = Option.bind (Option.bind ref uuid_of) (λ id.
    Option.bind (find_row id st.top_ups) (λ o. with_order o (latest_payment_of o.id provider st)))

abbrev pub or_by_ref :
    PaymentProvider → Option TopUpRef → Option Payment → Action Orders (Payment × CoinTopUp)
or_by_ref provider ref (some payment) = resolve_attempt ref payment
or_by_ref provider ref none = do
  found ← reads (attempt_by_ref provider ref)
  or_fail found (not_found payment_not_found)

-- An empty reference of the gateway counts as none: `normalizeCallback` gives none.
unfoldable pub resolve_payment :
    PaymentProvider → Option String → Option TopUpRef → Action Orders (Payment × CoinTopUp)
resolve_payment provider txn ref = do
  attempt ← reads (λ st. Option.bind txn (λ t. attempt_by_txn provider t st))
  or_by_ref provider ref attempt
