-- ===== src/TopUp/Credited/Delivery.antt =====
-- Deliveries of the gateways, as sequences of transactions.
use ai_cinema_be.TopUp.Webhook
use ai_cinema_be.Common.{
  subst, ◌∷◌, ℕ, ◌≡◌, ap, sym, Bool, true, false, not, ◌||◌, [], Option, some, none, String,
  if◌then◌else◌,
}
use ai_cinema_be.Common.Int.{eqb_ℤ}
use ai_cinema_be.Common.Errors.{
  invalid_signature, bad_request, amount_mismatch, unprocessable, unique_violation,
}
use ai_cinema_be.Common.Lists.{any}
use ai_cinema_be.Common.Transaction.{Result, ok, err, ok_snd, bind-require-eq-ok}
use ai_cinema_be.Common.Action.{◌>>=◌, ◌>>◌, Action, commit, fail, attempt}
use ai_cinema_be.Settings.{PlatformSetting}
use ai_cinema_be.Wallet.Rows.{Database, Ledger}
use ai_cinema_be.TopUp.Rows.{
  CoinTopUp, Payment, PaymentCallback, Orders, OrderView, PaymentProvider, PaymentStatus,
  TopUpStatus, is_paid, is_pending, is_order_pending, reported_as, wrong_amount, bad_amount,
  top_up_has_id,
}
use ai_cinema_be.TopUp.Lookup.{top_up_view, resolve_payment}
use ai_cinema_be.TopUp.Lookup.Laws.{top_up_view-same, resolve_payment-same}
use ai_cinema_be.TopUp.Callback.{Raw, Runtime, GatewayCallback, normalize_callback}
use ai_cinema_be.TopUp.Settlement.{
  settle, mark_payment_failed, update_payment, update_order, payment_to, order_to,
}
use ai_cinema_be.TopUp.Opening.{Gateways}
use ai_cinema_be.TopUp.Deliveries.{
  is_delivery, update_delivery, create_delivery, put_delivery, update_deliveries, delivery,
}
use ai_cinema_be.TopUp.Credited.Reach.{Step, Reach, here, settles, fails, refuses, elsewhere}
use ai_cinema_be.TopUp.Credited.Requests.{
  Runs, Runs-bind, Runs-then, Runs-commit, Runs-if, Runs-next,
}

update_delivery_ok :
    (provider : PaymentProvider) (event : String) (f : PaymentCallback → PaymentCallback)
    (st : Orders) {u : Unit {0}} {after : Orders}
    → update_delivery provider event f st ≡ ok (u, after)
    → after ≡ record st { callbacks = update_deliveries provider event f st.callbacks }
unfolding update_delivery
update_delivery_ok provider event f st h =
    let (there, h₁) = bind-require-eq-ok (any (is_delivery provider event) st.callbacks) _ st _ h in
    sym (ok_snd h₁)

create_delivery_ok :
    (row : PaymentCallback) (st : Orders) {u : Unit {0}} {after : Orders}
    → create_delivery row st ≡ ok (u, after)
    → after ≡ record st { callbacks = row ∷ st.callbacks }
unfolding create_delivery
create_delivery_ok row st h =
    let (free, h₁) =
      bind-require-eq-ok (not (any (is_delivery row.provider row.event_id) st.callbacks)) _ st _
        h in
    sym (ok_snd h₁)

module _ (db : Database) (s : PlatformSetting) where
  same_orders :
      (st after : Orders)
      → after.top_ups ≡ st.top_ups
      → after.ledger ≡ st.ledger
      → Step db s st after
  same_orders st after p q = elsewhere [] p (ap (λ (l : Ledger). l.transactions) q) tt

  Runs-close :
      (provider : PaymentProvider) (event : String) (f : PaymentCallback → PaymentCallback)
      → Runs db s (commit (update_delivery provider event f))
  Runs-close provider event f = Runs-commit db s (update_delivery provider event f) (λ st after u h.
      let e = update_delivery_ok provider event f st h in
      same_orders st after (ap (λ (x : Orders). x.top_ups) e) (ap (λ (x : Orders). x.ledger) e))

  Runs-put :
      (row : PaymentCallback) (f : PaymentCallback → PaymentCallback)
      → Runs db s (commit (put_delivery row f))
  unfolding put_delivery
  Runs-put row f = Runs-commit db s (put_delivery row f) (λ st after u h.
      written st after u (any (is_delivery row.provider row.event_id) st.callbacks) h)
    where
      written :
          (st after : Orders) (u : Unit {0}) (b : Bool)
          → (if b then update_delivery row.provider row.event_id f else create_delivery row) st
            ≡ ok (u, after)
          → Step db s st after
      written st after u true h =
          let e = update_delivery_ok row.provider row.event_id f st h in
          same_orders st after (ap (λ (x : Orders). x.top_ups) e) (ap (λ (x : Orders). x.ledger) e)
      written st after u false h =
          let e = create_delivery_ok row st h in
          same_orders st after (ap (λ (x : Orders). x.top_ups) e) (ap (λ (x : Orders). x.ledger) e)

  Runs-same : {A : Type 0} (m : Action Orders A) → ((st : Orders) → (m st).1 ≡ st) → Runs db s m
  Runs-same m same st = subst (Reach db s st) (sym (same st)) here

  Runs-view : (id : Option ℕ) → Runs db s (top_up_view id)
  Runs-view id = Runs-same (top_up_view id) (top_up_view-same id)

  module _ (provider : PaymentProvider) (callback : GatewayCallback) (now : ℕ) where
    Runs-answer : (id : ℕ) → Runs db s (Webhook.answer_with provider callback now id)
    unfolding Webhook.answer_with
    Runs-answer id =
        Runs-then db s _ _ (Runs-close provider callback.event_id (Webhook.handled now))
          (Runs-view (some id))

    Runs-decline :
        (payment : Payment) (o : CoinTopUp)
        → Runs db s (Webhook.decline provider callback now payment o)
    unfolding Webhook.decline
    Runs-decline payment o =
        Runs-then db s _ _
          (Runs-commit db s
            (mark_payment_failed payment.id (reported_as callback.status)
              (Webhook.failure_of callback.status))
            (λ st after u h. fails payment.id _ _ u h))
          (Runs-answer o.id)

    Runs-refuse :
        (payment : Payment) (o : CoinTopUp)
        → Runs db s (Webhook.refuse_delivery provider callback now payment o)
    unfolding Webhook.refuse_delivery Webhook.reject
    Runs-refuse payment o =
        let reason = some (wrong_amount (some callback.amount_vnd) payment.amount_vnd) in
        let failed_payment = update_payment payment.id (payment_to PaymentStatus.failed reason) in
        let failed_order = update_order o.id (order_to TopUpStatus.failed reason) in
        let closed = commit (
          update_delivery provider callback.event_id
            (Webhook.handled_with (bad_amount callback.amount_vnd payment.amount_vnd) now)) in
        let tail : Action Orders OrderView = closed >> fail (unprocessable amount_mismatch) in
        let rest : Action Orders OrderView = commit failed_order >> tail in
        Runs-then db s {B = OrderView} (commit failed_payment) rest
          (Runs-commit db s failed_payment (λ st after u h.
            same_orders st after (ap (λ (x : Orders). x.top_ups) (sym (ok_snd h)))
              (ap (λ (x : Orders). x.ledger) (sym (ok_snd h)))))
          (Runs-then db s {B = OrderView} (commit failed_order) tail
            (Runs-commit db s failed_order (λ st after u h. refuses o.id reason u h))
            (Runs-then db s {B = OrderView} closed (fail (unprocessable amount_mismatch))
              (Runs-close provider callback.event_id _) (λ st. here)))

    Runs-after :
        (o : CoinTopUp) (r : Result OrderView)
        → Runs db s (Webhook.after_settle provider callback now o r)
    unfolding Webhook.after_settle
    Runs-after o (ok view) =
        Runs-then db s _ _ (Runs-close provider callback.event_id _) (λ st. here)
    Runs-after o (err e) =
        Runs-if db s (Webhook.is_settled_elsewhere e) _ _ (Runs-answer o.id)
          (Runs-then db s _ _ (Runs-close provider callback.event_id _) (λ st. here))

    module _ (js : Runtime) where
      Runs-confirm :
          (payment : Payment) (o : CoinTopUp)
          → Runs db s (Webhook.confirm provider callback now db s js payment o)
      unfolding Webhook.confirm
      Runs-confirm payment o =
          Runs-bind db s
            (attempt (
              commit (settle db s (Webhook.settle_request provider callback now js payment o) now)))
            (Webhook.after_settle provider callback now o)
            (Runs-commit db s
              (settle db s (Webhook.settle_request provider callback now js payment o) now)
              (λ st after v h. settles _ now v h))
            (Runs-after o)

      Runs-deliver :
          (payment : Payment) (o : CoinTopUp)
          → Runs db s (Webhook.deliver provider callback now db s js payment o)
      unfolding Webhook.deliver
      Runs-deliver payment o = Runs-if db s (is_paid payment.status) _ _ (Runs-answer o.id) (
          Runs-if db s (not (is_pending payment.status) || not (is_order_pending o.status)) _ _
            (Runs-answer o.id)
            (Runs-if db s (not (Webhook.is_success callback.status)) _ _ (Runs-decline payment o) (
              Runs-if db s (not (eqb_ℤ callback.amount_vnd payment.amount_vnd)) _ _
                (Runs-refuse payment o) (Runs-confirm payment o))))

      Runs-after_record :
          (r : Result (Unit {0})) → Runs db s (Webhook.after_record provider callback now db s js r)
      unfolding Webhook.after_record
      Runs-after_record (ok u) = λ st. here
      Runs-after_record (err unique_violation) = λ st. here
      Runs-after_record (err e) = λ st. here

      Runs-record :
          (payment : Payment) (o : CoinTopUp)
          → Runs db s (Webhook.record_delivery provider callback now db s js payment o)
      unfolding Webhook.record_delivery
      Runs-record payment o =
          let row = Webhook.new_delivery provider callback now db s js payment o in
          Runs-bind db s (attempt (commit (create_delivery row)))
            (Webhook.after_record provider callback now db s js)
            (Runs-commit db s (create_delivery row) (λ st after u h.
              let e = create_delivery_ok row st h in
              same_orders st after (ap (λ (x : Orders). x.top_ups) e)
                (ap (λ (x : Orders). x.ledger) e)))
            Runs-after_record

      Runs-once :
          (winner : Option PaymentCallback) (found : Payment × CoinTopUp)
          → Runs db s (Webhook.deliver_once provider callback now db s js winner found)
      unfolding Webhook.deliver_once
      Runs-once (some c) found = Runs-view c.top_up_id
      Runs-once none found = Runs-deliver found.0 found.1

      Runs-known :
          (replayed : Option PaymentCallback) (found : Payment × CoinTopUp)
          → Runs db s (Webhook.known_or_recorded provider callback now db s js replayed found)
      Runs-known none found = Runs-record found.0 found.1
      Runs-known (some c) found = λ st. here

      Runs-first :
          (replayed : Option PaymentCallback)
          → Runs db s (Webhook.first_delivery provider callback now db s js replayed)
      unfolding Webhook.first_delivery
      Runs-first replayed =
          Runs-bind db s (resolve_payment provider callback.provider_txn_id callback.top_up_id)
            (λ found.
              Webhook.known_or_recorded provider callback now db s js replayed found
              >>= (λ winner. Webhook.deliver_once provider callback now db s js winner found))
            (Runs-same (resolve_payment provider callback.provider_txn_id callback.top_up_id)
              (resolve_payment-same provider callback.provider_txn_id callback.top_up_id))
            (λ found.
              Runs-bind db s
                (Webhook.known_or_recorded provider callback now db s js replayed found)
                (λ winner. Webhook.deliver_once provider callback now db s js winner found)
                (Runs-known replayed found) (λ winner. Runs-once winner found))

      Runs-unless :
          (c replayed : Option PaymentCallback)
          → Runs db s (Webhook.unless_handled provider callback now db s js c replayed)
      unfolding Webhook.unless_handled
      Runs-unless (some c) replayed = Runs-view c.top_up_id
      Runs-unless none replayed = Runs-first replayed

      Runs-accept : Runs db s (Webhook.accept provider callback now db s js)
      unfolding Webhook.accept
      Runs-accept st =
          let replayed = delivery provider callback.event_id st in
          Runs-unless (Webhook.if_handled replayed) replayed st

    Runs-refuse_signature : Runs db s (Webhook.refuse_signature provider callback now)
    unfolding Webhook.refuse_signature
    Runs-refuse_signature =
        Runs-then db s _ (fail (bad_request invalid_signature)) (Runs-put _ _) (λ st. here)

  -- A delivery of a gateway, whatever it says and however it ends, leaves a store that a sequence of
  -- the steps of `Reach-IsCreditedOnce` reaches.
  pub handle_callback-Reach :
      (g : Gateways) (js : Runtime) (provider : PaymentProvider) (raw : Raw) (now : ℕ) (st : Orders)
      → Reach db s st (Webhook.handle_callback db s g js provider raw now st).1
  unfolding Webhook.handle_callback
  handle_callback-Reach g js provider raw now st =
      Runs-next db s st (normalize_callback js raw, st)
        (λ callback.
          if g.verify_callback_signature provider raw
          then Webhook.accept provider callback now db s js
          else Webhook.refuse_signature provider callback now)
        here
        (λ callback.
          Runs-if db s (g.verify_callback_signature provider raw) _ _
            (Runs-accept provider callback now js) (Runs-refuse_signature provider callback now))
