-- ===== src/TopUp/Webhook/Once.antt =====
-- A delivery that was answered is on record as handled, and is answered again without a write.
use ai_cinema_be.TopUp.Webhook
use ai_cinema_be.TopUp.Webhook.Closing.{IsHandled, Closes-accept, accept_handled, signature_refused}
use ai_cinema_be.Common.{◌∙◌, ap, ℕ, ◌≡◌, true, some, Bool-cases, inl, inr}
use ai_cinema_be.Common.Transaction.{Result, ok}
use ai_cinema_be.Common.Action.{bind-eq-ok}
use ai_cinema_be.TopUp.Rows.{OrderView, PaymentCallback, Orders, PaymentProvider}
use ai_cinema_be.TopUp.Deliveries.{delivery}
use ai_cinema_be.TopUp.Webhook.{handled, if_handled}
use ai_cinema_be.TopUp.Callback.{normalize_callback, Raw, Runtime, GatewayCallback}
use ai_cinema_be.Wallet.Rows.{Database}
use ai_cinema_be.Settings.{PlatformSetting}
use ai_cinema_be.TopUp.Lookup.{top_up_view}
use ai_cinema_be.TopUp.Lookup.Laws.{top_up_view-same}
use ai_cinema_be.TopUp.Opening.{Gateways}

module _ (db : Database) (s : PlatformSetting) (g : Gateways) (js : Runtime)
    (provider : PaymentProvider) (raw : Raw) where
  -- A delivery that is on record is answered from its row.
  handled_again :
      (callback : GatewayCallback) (later : ℕ) (after : Orders) (c : PaymentCallback)
      → normalize_callback js raw ≡ ok callback
      → g.verify_callback_signature provider raw ≡ true
      → if_handled (delivery provider callback.event_id after) ≡ some c
      → Webhook.handle_callback db s g js provider raw later after
        ≡ ((top_up_view c.top_up_id after).0, after)
  unfolding Webhook.handle_callback
  handled_again callback later after c read good on_record =
      rw (Webhook.handle_callback, read, good)
        (accept_handled provider callback later db s js after c on_record
          ∙ ap (λ (x : Orders). ((top_up_view c.top_up_id after).0, x))
              (top_up_view-same c.top_up_id after))

  -- What an answer tells: the delivery was read, its signature was good, and it is on record.
  answered :
      (now : ℕ) (st : Orders) (v : OrderView) (after : Orders)
      → Webhook.handle_callback db s g js provider raw now st ≡ (ok v, after)
      → (callback : GatewayCallback) × (normalize_callback js raw ≡ ok callback)
        × (g.verify_callback_signature provider raw ≡ true)
        × IsHandled provider callback.event_id after
  unfolding Webhook.handle_callback
  answered now st v after h =
      let (callback, mid, read, served) = bind-eq-ok (normalize_callback js raw, st) _ h in
      let of_raw = ap (λ (p : Result GatewayCallback × Orders). p.0) read in
      elim (Bool-cases (g.verify_callback_signature provider raw)) [
        | inr bad ↦ absurd (cc (signature_refused provider callback now mid (rw bad at served)))
        | inl good ↦ (
          callback,
          of_raw,
          good,
          Closes-accept provider callback now db s js mid v after (rw good at served),
        )
      ]

  -- A delivery that was answered is on record as handled, and is answered again, at any time, with the
  -- order of its row as it stands: the second delivery writes nothing at all.
  pub handle_callback_twice :
      (now later : ℕ) (st : Orders) (v : OrderView) (after : Orders)
      → Webhook.handle_callback db s g js provider raw now st ≡ (ok v, after)
      → (callback : GatewayCallback) × (c : PaymentCallback) × (normalize_callback js raw
          ≡ ok callback)
        × (if_handled (delivery provider callback.event_id after) ≡ some c)
        × (Webhook.handle_callback db s g js provider raw later after
            ≡ ((top_up_view c.top_up_id after).0, after))
  handle_callback_twice now later st v after h =
      let (callback, read, good, (c, on_record)) = answered now st v after h in
      (callback, c, read, on_record, handled_again callback later after c read good on_record)
