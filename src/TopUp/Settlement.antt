-- ===== src/TopUp/Settlement.antt =====
-- topup-settlement.service.ts: crediting the wallet once a gateway confirms, and mirroring a failure
-- onto the order. The notification is left out.
pub mod Laws
use ai_cinema_be.Common.{◌==◌, false, Bool, ℕ, not, Option, none, some, String, if◌then◌else◌}
use ai_cinema_be.Common.Int.{ℤ, eqb_ℤ}
use ai_cinema_be.Common.Table.{find_row, update_row}
use ai_cinema_be.Common.Transaction.{
  throw, Tx, pure, gets, modify, require, or_throw, on_part, ◌>>=◌, ◌>>◌,
}
use ai_cinema_be.Settings.{PlatformSetting}
use ai_cinema_be.Wallet.Rows.{
  Database, Ledger, CreditRequest, CoinEntryType, CoinLotSource, CoinReferenceType,
}
use ai_cinema_be.Wallet.Spend.{credit}
use ai_cinema_be.TopUp.Rows.{
  CoinTopUp, Payment, Orders, OrderView, order_view, TopUpStatus, PaymentStatus, FailureReason,
  is_order_pending, is_pending, is_paid, wrong_amount, payment_has_id, top_up_has_id,
}
use ai_cinema_be.Common.Errors.{
  unique_violation, top_up_not_payable, top_up_already_settled, amount_mismatch, unprocessable,
  record_not_found,
}
use ai_cinema_be.Common.Lists.{any}

-- The input of `settle`. An amount that is no integer is `none`; `paid_at` is the instant that the
-- gateway names.
pub record SettleRequest : Type 0 where
  pub payment_id : ℕ
  pub provider_payment_id : String
  pub amount_vnd : Option ℤ
  pub idempotency_key : String
  pub paid_at : Option ℕ

abbrev pub on_ledger : {A : Type 0} → Tx Ledger A → Tx Orders A
on_ledger = on_part (λ d. d.ledger) (λ l d. record d { ledger = l })

-- `tx.payment.update` and `tx.coinTopUp.update`, by id.
abbrev pub update_payment : ℕ → (Payment → Payment) → Tx Orders (Unit {0})
update_payment id f = modify (λ st. record st { payments = update_row id f st.payments })

abbrev pub update_order : ℕ → (CoinTopUp → CoinTopUp) → Tx Orders (Unit {0})
update_order id f = modify (λ st. record st { top_ups = update_row id f st.top_ups })

abbrev pub payment_to : PaymentStatus → Option FailureReason → Payment → Payment
payment_to status reason p = record p { status = status; failure_reason = reason }

abbrev pub order_to : TopUpStatus → Option FailureReason → CoinTopUp → CoinTopUp
order_to status reason o = record o { status = status; failure_reason = reason }

abbrev pub is_amount : Option ℤ → ℤ → Bool
is_amount none amount = false
is_amount (some n) amount = eqb_ℤ n amount

abbrev pub payment_settled : String → ℕ → Payment → Payment
payment_settled id at p = record p {
  status = PaymentStatus.paid;
  provider_payment_id = some id;
  paid_at = some at;
}

abbrev pub order_settled : ℕ → CoinTopUp → CoinTopUp
order_settled transaction o = record o {
  status = TopUpStatus.paid;
  coin_transaction_id = some transaction;
}

abbrev pub is_some_id : ℕ → Option ℕ → Bool
is_some_id i none = false
is_some_id i (some j) = j == i

-- The column `coinTransactionId` of an order is unique.
abbrev pub is_settled_by : ℕ → CoinTopUp → Bool
is_settled_by transaction o = is_some_id transaction o.coin_transaction_id

abbrev pub or_now : Option ℕ → ℕ → ℕ
or_now none now = now
or_now (some at) now = at

abbrev pub top_up_credit : CoinTopUp → String → CreditRequest
top_up_credit o key = record {
  entry_type = CoinEntryType.top_up;
  main_amount = some o.coins_granted;
  bonus_amount = none;
  lot_source = CoinLotSource.top_up_promo;
  expires_in_days = none;
  lot_id = none;
  rate_vnd = some o.rate_vnd;
  reference_type = some CoinReferenceType.coin_top_up;
  reference_id = some o.id;
  idempotency_key = some key;
  created_by_id = none;
  reverses_id = none;
}

-- The writes of a wrong amount, and the exception that undoes them.
unfoldable pub refuse_amount : SettleRequest → Payment → CoinTopUp → Tx Orders (Unit {0})
refuse_amount r payment o = do
  let reason = some (wrong_amount r.amount_vnd payment.amount_vnd)
  update_payment payment.id (payment_to PaymentStatus.failed reason)
  update_order o.id (order_to TopUpStatus.failed reason)
  throw (unprocessable amount_mismatch)

-- `settledPayment` and `settledOrder` are the rows as they were read, with the columns written.
module _ (db : Database) (s : PlatformSetting) where
  -- From the credit on.
  unfoldable pub pay_order : SettleRequest → ℕ → Payment → CoinTopUp → Tx Orders OrderView
  pay_order r now payment o = do
    let at = or_now r.paid_at now
    movement ← on_ledger (credit db s o.wallet_id (top_up_credit o r.idempotency_key) at)
    update_payment payment.id (payment_settled r.provider_payment_id at)
    taken ← gets (λ st. any (is_settled_by movement.transaction_id) st.top_ups)
    require (not taken) unique_violation
    update_order o.id (order_settled movement.transaction_id)
    pure (
        order_view (order_settled movement.transaction_id o)
          (some (payment_settled r.provider_payment_id at payment)))

  unfoldable pub settle : SettleRequest → ℕ → Tx Orders OrderView
  settle r now = do
    found ← gets (λ st. find_row r.payment_id st.payments)
    payment ← or_throw found record_not_found
    require (not (is_paid payment.status)) (unprocessable top_up_already_settled)
    require (is_pending payment.status) (unprocessable top_up_not_payable)
    order ← gets (λ st. find_row payment.coin_top_up_id st.top_ups)
    o ← or_throw order record_not_found
    require (is_order_pending o.status) (unprocessable top_up_not_payable)
    if is_amount r.amount_vnd payment.amount_vnd then pure tt else refuse_amount r payment o
    pay_order r now payment o

-- What `markPaymentFailed` may set: the order mirrors it.
pub data Failure : Type 0 where
  failed cancelled : Failure

abbrev pub payment_failure : Failure → PaymentStatus
payment_failure Failure.failed = PaymentStatus.failed
payment_failure Failure.cancelled = PaymentStatus.cancelled

abbrev pub order_failure : Failure → TopUpStatus
order_failure Failure.failed = TopUpStatus.failed
order_failure Failure.cancelled = TopUpStatus.cancelled

unfoldable pub mark_payment_failed : ℕ → FailureReason → Failure → Tx Orders (Unit {0})
mark_payment_failed payment_id reason status = do
  found ← gets (λ st. find_row payment_id st.payments)
  payment ← or_throw found record_not_found
  update_payment payment_id (payment_to (payment_failure status) (some reason))
  order ← gets (λ st. find_row payment.coin_top_up_id st.top_ups)
  o ← or_throw order record_not_found
  update_order payment.coin_top_up_id (order_to (order_failure status) (some reason))
