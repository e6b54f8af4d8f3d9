-- ===== src/TopUp/Tests.antt =====
-- The theorems on top-ups at one order of the user 7.
use mathlib.Core.List.Permᴰ
use mathlib.Core.Option
use ai_cinema_be.Common.{ℕ, zero, suc, ◌≡◌, refl, true, none, some, List, [], ◌∷◌, inl, inr, arith}
use ai_cinema_be.Common.Int.{pos, ◌+ℤ◌}
use ai_cinema_be.Common.Transaction.{Result, ok, err}
use ai_cinema_be.Wallet.Sample.{sample_db, sample_settings, sample_ledger}
use ai_cinema_be.TopUp.Rows.{
  CoinTopUp, Payment, PaymentCallback, Orders, OrderView, Queries, PaymentStatus, TopUpStatus, momo,
  order_view, top_up_has_id, payment_has_id,
}
use ai_cinema_be.TopUp.Callback.{
  Raw, GatewayCallback, text, number, normalize_callback, signature_of, event_id_of, amount_of,
  status_of, provider_txn_of, decode_top_up_extra_data, field, int_of, is_number_zero, raw_status,
  ref_of, text_of, vnp_fallback, vnp_status,
}
use ai_cinema_be.TopUp.Opening.{Gateways, Outcome}
use ai_cinema_be.TopUp.Settlement.{
  refuse_amount, pay_order, SettleRequest, settle, mark_payment_failed,
}
use ai_cinema_be.TopUp.Credited.{IsCreditedOnce}
use ai_cinema_be.TopUp.Credited.Reach.{Reach, here, next, settles, Reach-IsCreditedOnce}
use ai_cinema_be.TopUp.Credited.Delivery.{handle_callback-Reach}
use ai_cinema_be.TopUp.Sample.{runtime}
use ai_cinema_be.TopUp.Webhook.{
  if_handled, handle_callback, accept, unless_handled, first_delivery, record_delivery,
  after_record, answer_with, decline, deliver, deliver_once,
}
use ai_cinema_be.TopUp.Webhook.Once.{handle_callback_twice}
use ai_cinema_be.TopUp.Expiry.{expire_due_orders}
use ai_cinema_be.TopUp.Expiry.Ends.{due, expire_due_orders_ends}
use ai_cinema_be.TopUp.Reconcile.{reconcile_due}
use ai_cinema_be.TopUp.Reconcile.Endless.{reconcile_due-endless}
use ai_cinema_be.Wallet.Spend.{
  movement_of, first_id, write_entries, open_lot, lot_for, pay_in, replayed, unless_replayed,
  credit,
}
use ai_cinema_be.Wallet.Lots.{bump_wallet, find_by_key, create_entry, create_entries, locked}
use ai_cinema_be.TopUp.Deliveries.{delivery, create_delivery, update_deliveries, update_delivery}
use ai_cinema_be.TopUp.Lookup.{
  top_up_view, resolve_payment, attempt_by_txn, resolve_attempt, latest_payment, newest,
}
use ai_cinema_be.Common.Text.{trim_left, trim_right, trim_text, same_codes}
use ai_cinema_be.Common.Words.{is_space}

abbrev order : CoinTopUp
order = record {
  id = 1;
  user_id = 7;
  wallet_id = 1;
  amount_vnd = pos 50_000;
  coins_granted = pos 50;
  rate_vnd = 1000;
  status = TopUpStatus.pending;
  coin_transaction_id = none;
  failure_reason = none;
  expires_at = 900_000;
}

abbrev attempt_row : ℕ → Payment
attempt_row id = record {
  id = id;
  user_id = 7;
  coin_top_up_id = 1;
  provider = momo;
  amount_vnd = pos 50_000;
  provider_txn_id = "MOMO-A";
  provider_payment_id = none;
  status = PaymentStatus.pending;
  redirect_url = none;
  failure_reason = none;
  paid_at = none;
  expires_at = 900_000;
  created_at = 0;
}

abbrev no_orders : Orders
no_orders = record { ledger = sample_ledger; top_ups = []; payments = []; callbacks = [] }

abbrev one_order : Orders
one_order = record no_orders { top_ups = order ∷ []; payments = attempt_row 1 ∷ [] }

one_order-IsCreditedOnce : IsCreditedOnce one_order
unfolding ◌+ℤ◌
one_order-IsCreditedOnce = record {
  unique = (tt, tt);
  unknown = λ i h. refl;
  orders = ((λ t. refl, inl refl), tt);
}

abbrev queries : Queries
queries = record {
  order_top_ups = λ l. l;
  order_top_ups-perm = λ l. Permᴰ.refl l;
  order_payments = λ l. l;
  order_payments-perm = λ l. Permᴰ.refl l;
}

abbrev request : SettleRequest
request = record {
  payment_id = 1;
  provider_payment_id = "T1";
  amount_vnd = some (pos 50_000);
  idempotency_key = "topup:1";
  paid_at = none;
}

abbrev settled_view : Result (OrderView × Orders) → OrderView
settled_view (ok r) = r.0
settled_view (err e) = order_view order none

abbrev settled_store : Result (OrderView × Orders) → Orders
settled_store (ok r) = r.1
settled_store (err e) = no_orders

Reach-IsCreditedOnce_example :
    IsCreditedOnce (settled_store (settle sample_db sample_settings request 100 one_order))
unfolding settle pay_order refuse_amount credit unless_replayed replayed pay_in lot_for open_lot
    locked write_entries create_entries create_entry find_by_key first_id bump_wallet movement_of
    order_view ◌+ℤ◌
Reach-IsCreditedOnce_example =
    Reach-IsCreditedOnce sample_db sample_settings
      (next here (
        settles request 100 (settled_view (settle sample_db sample_settings request 100 one_order))
          refl))
      one_order-IsCreditedOnce

abbrev gateways : Gateways
gateways = record {
  create_payment_url = λ r. ok "https://pay";
  verify_callback_signature = λ p raw. true;
  reconcile_payment = λ p txn date. ok (record {
    outcome = Outcome.unknown;
    provider_payment_id = none;
    amount_vnd = none;
    paid_at = none;
  });
}

-- A delivery of MoMo that reports a payment as cancelled.
abbrev cancelled_delivery : Raw
cancelled_delivery =
    ("eventId", text "E1")
    ∷ ("orderId", text "MOMO-A")
    ∷ ("amount", number (pos 50_000))
    ∷ ("status", text "Cancelled")
    ∷ ("signature", text "s")
    ∷ []

handle_callback-Reach_example :
    Reach sample_db sample_settings one_order
      (handle_callback sample_db sample_settings gateways runtime momo cancelled_delivery 100
        one_order).1
handle_callback-Reach_example =
    handle_callback-Reach sample_db sample_settings gateways runtime momo cancelled_delivery 100
      one_order

expire_due_orders_example :
    (n : ℕ) × (after : Orders) × (expire_due_orders queries 2 900_000 one_order ≡ some (n, after))
    × (due 900_000 after.top_ups ≡ [])
expire_due_orders_example = expire_due_orders_ends 900_000 queries 2 one_order (omega arith)

abbrev attempts : ℕ → List Payment
attempts zero = []
attempts (suc n) = attempt_row (suc n) ∷ attempts n

abbrev silent_orders : Orders
silent_orders = record one_order { payments = attempts 100 }

reconcile_due-endless_example :
    reconcile_due sample_db sample_settings gateways runtime queries 5 600_000 silent_orders ≡ none
reconcile_due-endless_example =
    reconcile_due-endless sample_db sample_settings gateways runtime
      (λ p txn date. inr (
        record {
          outcome = Outcome.unknown;
          provider_payment_id = none;
          amount_vnd = none;
          paid_at = none;
        },
        refl,
        refl,
      ))
      queries 5 600_000 silent_orders (omega arith)

abbrev answered_view : Result OrderView × Orders → OrderView
answered_view (ok v, st) = v
answered_view (err e, st) = order_view order none

abbrev cancelled : Result OrderView × Orders
cancelled =
    handle_callback sample_db sample_settings gateways runtime momo cancelled_delivery 100 one_order

cancelled_answer : cancelled ≡ (ok (answered_view cancelled), cancelled.1)
unfolding Option.bind order_view normalize_callback signature_of event_id_of amount_of status_of
    provider_txn_of decode_top_up_extra_data field int_of is_number_zero raw_status ref_of text_of
    vnp_fallback vnp_status handle_callback accept unless_handled first_delivery record_delivery
    after_record answer_with decline deliver deliver_once delivery create_delivery update_deliveries
    update_delivery resolve_payment attempt_by_txn resolve_attempt latest_payment top_up_view newest
    trim_left trim_right trim_text same_codes is_space mark_payment_failed
cancelled_answer = refl

handle_callback_twice_example :
    (callback : GatewayCallback) × (c : PaymentCallback) × (normalize_callback runtime
        cancelled_delivery
      ≡ ok callback)
    × (if_handled (delivery momo callback.event_id cancelled.1) ≡ some c)
    × (handle_callback sample_db sample_settings gateways runtime momo cancelled_delivery 200
          cancelled.1
        ≡ ((top_up_view c.top_up_id cancelled.1).0, cancelled.1))
handle_callback_twice_example =
    handle_callback_twice sample_db sample_settings gateways runtime momo cancelled_delivery 100 200
      one_order (answered_view cancelled) cancelled.1 cancelled_answer
