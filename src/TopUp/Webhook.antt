-- ===== src/TopUp/Webhook.antt =====
-- `handleCallback` of coin-topup.service.ts: one delivery of a gateway.
pub mod Closing
pub mod Once
use Prim.Native.String.{◌++◌}
use ai_cinema_be.Common.{ℕ, Bool, true, false, not, ◌||◌, Option, none, some, String, if◌then◌else◌}
use ai_cinema_be.Common.Int.{eqb_ℤ}
use ai_cinema_be.Common.Errors.{
  Error, bad_request, unprocessable, unique_violation, invalid_signature, amount_mismatch,
  top_up_already_settled,
}
use ai_cinema_be.Common.Transaction.{Result, ok, err}
use ai_cinema_be.TopUp.Deliveries.{delivery, update_delivery, create_delivery, put_delivery}
use ai_cinema_be.Common.Action.{
  Action, done, fail, reads, commit, attempt, settled_with, ◌>>=◌, ◌>>◌,
}
use ai_cinema_be.Settings.{PlatformSetting}
use ai_cinema_be.Wallet.Rows.{Database}
use ai_cinema_be.TopUp.Rows.{
  CoinTopUp, Payment, PaymentCallback, Orders, OrderView, PaymentProvider, TopUpStatus,
  PaymentStatus, CallbackStatus, CallbackError, bad_signature, bad_amount, thrown, success,
  reported_as, wrong_amount, is_paid, is_pending, is_order_pending,
}
use ai_cinema_be.TopUp.Lookup.{top_up_view, resolve_payment}
use ai_cinema_be.TopUp.Callback.{Raw, Runtime, GatewayCallback, normalize_callback}
use ai_cinema_be.TopUp.Settlement.{
  SettleRequest, Failure, settle, mark_payment_failed, update_payment, update_order, payment_to,
  order_to,
}
use ai_cinema_be.TopUp.Opening.{Gateways}

-- `topup:${topUp.id}`
abbrev pub top_up_key : Runtime → ℕ → String
top_up_key js id = "topup:" ++ js.text_of_id id

abbrev pub or_text : Option String → String → String
or_text none d = d
or_text (some s) d = s

abbrev pub is_success : CallbackStatus → Bool
is_success success = true
is_success _ = false

-- `{ handledAt: new Date() }`, with or without an error.
abbrev pub handled : ℕ → PaymentCallback → PaymentCallback
handled now c = record c { handled_at = some now }

abbrev pub handled_with : CallbackError → ℕ → PaymentCallback → PaymentCallback
handled_with e now c = record c { handled_at = some now; error_message = some e }

abbrev pub if_handled : Option PaymentCallback → Option PaymentCallback
if_handled none = none
if_handled (some c) = elim c.handled_at [ none ↦ none | some at ↦ some c ]

-- A settlement that another delivery made first: TOPUP_ALREADY_SETTLED, or a key that is taken.
unfoldable pub is_settled_elsewhere : Error → Bool
is_settled_elsewhere (unprocessable top_up_already_settled) = true
is_settled_elsewhere unique_violation = true
is_settled_elsewhere _ = false

abbrev pub failure_of : CallbackStatus → Failure
failure_of CallbackStatus.cancelled = Failure.cancelled
failure_of _ = Failure.failed

module _ (provider : PaymentProvider) (callback : GatewayCallback) (now : ℕ) where
  abbrev pub close : (PaymentCallback → PaymentCallback) → Action Orders (Unit {0})
  close f = commit (update_delivery provider callback.event_id f)

  -- Closes the delivery and answers with the order as it is.
  unfoldable pub answer_with : ℕ → Action Orders OrderView
  answer_with top_up_id = do close (handled now); top_up_view (some top_up_id)

  -- The gateway reports that nothing was paid.
  unfoldable pub decline : Payment → CoinTopUp → Action Orders OrderView
  decline payment o = do
    commit
        (mark_payment_failed payment.id (reported_as callback.status) (failure_of callback.status))
    answer_with o.id

  -- Closes the delivery with the error, and throws it.
  unfoldable pub reject : Payment → Action Orders OrderView
  reject payment = do
    close (handled_with (bad_amount callback.amount_vnd payment.amount_vnd) now)
    fail (unprocessable amount_mismatch)

  -- The gateway reports another amount: payment and order fail, each in a write of its own.
  unfoldable pub refuse_delivery : Payment → CoinTopUp → Action Orders OrderView
  refuse_delivery payment o = do
    let reason = some (wrong_amount (some callback.amount_vnd) payment.amount_vnd)
    commit (update_payment payment.id (payment_to PaymentStatus.failed reason))
    commit (update_order o.id (order_to TopUpStatus.failed reason))
    reject payment

  -- What follows `settle`.
  unfoldable pub after_settle : CoinTopUp → Result OrderView → Action Orders OrderView
  after_settle o (ok view) = close (handled now) >> done view
  after_settle o (err e) =
      if is_settled_elsewhere e
      then answer_with o.id
      else close (handled_with (thrown e) now) >> fail e

  abbrev pub settle_request : Runtime → Payment → CoinTopUp → SettleRequest
  settle_request js payment o = record {
    payment_id = payment.id;
    provider_payment_id = or_text callback.provider_payment_id callback.event_id;
    amount_vnd = some callback.amount_vnd;
    idempotency_key = top_up_key js o.id;
    paid_at = callback.paid_at;
  }

  module _ (db : Database) (s : PlatformSetting) (js : Runtime) where
    unfoldable pub confirm : Payment → CoinTopUp → Action Orders OrderView
    confirm payment o = do
      settled ← attempt (commit (settle db s (settle_request js payment o) now))
      after_settle o settled

    -- From the payment's status on.
    unfoldable pub deliver : Payment → CoinTopUp → Action Orders OrderView
    deliver payment o =
        if is_paid payment.status
        then answer_with o.id
        else if not (is_pending payment.status) || not (is_order_pending o.status)
        then answer_with o.id
        else if not (is_success callback.status)
        then decline payment o
        else if not (eqb_ℤ callback.amount_vnd payment.amount_vnd)
        then refuse_delivery payment o
        else confirm payment o

    -- Where another delivery was first and has finished, its row.
    unfoldable pub after_record : Result (Unit {0}) → Action Orders (Option PaymentCallback)
    after_record (ok u) = done none
    after_record (err unique_violation) =
        reads (λ st. if_handled (delivery provider callback.event_id st))
    after_record (err e) = fail e

    abbrev pub new_delivery : Payment → CoinTopUp → PaymentCallback
    new_delivery payment o = record {
      top_up_id = some o.id;
      payment_id = some payment.id;
      provider = provider;
      event_id = callback.event_id;
      signature = callback.signature;
      handled_at = none;
      error_message = none;
    }

    -- The delivery is put on record.
    unfoldable pub record_delivery : Payment → CoinTopUp → Action Orders (Option PaymentCallback)
    record_delivery payment o = do
      tried ← attempt (commit (create_delivery (new_delivery payment o)))
      after_record tried

    unfoldable pub deliver_once :
        Option PaymentCallback → Payment × CoinTopUp → Action Orders OrderView
    deliver_once (some winner) found = top_up_view winner.top_up_id
    deliver_once none found = deliver found.0 found.1

    abbrev pub known_or_recorded :
        Option PaymentCallback → Payment × CoinTopUp → Action Orders (Option PaymentCallback)
    known_or_recorded none found = record_delivery found.0 found.1
    known_or_recorded (some c) found = done none

    -- A delivery with a good signature that is not handled yet.
    unfoldable pub first_delivery : Option PaymentCallback → Action Orders OrderView
    first_delivery replayed = do
      found ← resolve_payment provider callback.provider_txn_id callback.top_up_id
      winner ← known_or_recorded replayed found
      deliver_once winner found

    unfoldable pub unless_handled :
        Option PaymentCallback → Option PaymentCallback → Action Orders OrderView
    unless_handled (some c) replayed = top_up_view c.top_up_id
    unless_handled none replayed = first_delivery replayed

    unfoldable pub accept : Action Orders OrderView
    accept = do
      replayed ← reads (delivery provider callback.event_id)
      unless_handled (if_handled replayed) replayed

  -- A delivery whose signature does not check out is put on record and refused.
  unfoldable pub refuse_signature : Action Orders OrderView
  refuse_signature = do
    commit (
        put_delivery
          (record {
            top_up_id = none;
            payment_id = none;
            provider = provider;
            event_id = callback.event_id;
            signature = callback.signature;
            handled_at = some now;
            error_message = some bad_signature;
          })
          (handled_with bad_signature now))
    fail (bad_request invalid_signature)

unfoldable pub handle_callback :
    Database
    → PlatformSetting
    → Gateways
    → Runtime
    → PaymentProvider
    → Raw
    → ℕ
    → Action Orders OrderView
handle_callback db s g js provider raw now = do
  callback ← settled_with (normalize_callback js raw)
  if g.verify_callback_signature provider raw
      then accept provider callback now db s js
      else refuse_signature provider callback now
