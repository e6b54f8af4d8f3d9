-- ===== src/TopUp/Deliveries.antt =====
-- The table of deliveries: `tx.paymentCallback` in coin-topup.service.ts.
use ai_cinema_be.Common.{Bool, not, if◌then◌else◌, ◌&&◌, Option, String, List, [], ◌∷◌, str_eq}
use ai_cinema_be.Common.Lists.{find, any}
use ai_cinema_be.Common.Errors.{record_not_found, unique_violation}
use ai_cinema_be.Common.Transaction.{Tx, require, modify, gets, ◌>>=◌, ◌>>◌}
use ai_cinema_be.TopUp.Rows.{PaymentCallback, PaymentProvider, Orders, same_provider}

abbrev pub is_delivery : PaymentProvider → String → PaymentCallback → Bool
is_delivery provider event c = same_provider c.provider provider && str_eq c.event_id event

-- `findUnique({ where: { provider_eventId } })`
unfoldable pub delivery : PaymentProvider → String → Orders → Option PaymentCallback
delivery provider event st = find (is_delivery provider event) st.callbacks

unfoldable pub update_deliveries :
    PaymentProvider
    → String
    → (PaymentCallback → PaymentCallback)
    → List PaymentCallback
    → List PaymentCallback
update_deliveries provider event f [] = []
update_deliveries provider event f (c ∷ cs) =
    let rest = update_deliveries provider event f cs in
    if is_delivery provider event c then f c ∷ cs else c ∷ rest

-- `paymentCallback.update`
unfoldable pub update_delivery :
    PaymentProvider → String → (PaymentCallback → PaymentCallback) → Tx Orders (Unit {0})
update_delivery provider event f = do
  there ← gets (λ st. any (is_delivery provider event) st.callbacks)
  require there record_not_found
  modify (λ st. record st { callbacks = update_deliveries provider event f st.callbacks })

-- `paymentCallback.create`; provider and event are unique together.
unfoldable pub create_delivery : PaymentCallback → Tx Orders (Unit {0})
create_delivery row = do
  taken ← gets (λ st. any (is_delivery row.provider row.event_id) st.callbacks)
  require (not taken) unique_violation
  modify (λ st. record st { callbacks = row ∷ st.callbacks })

-- `paymentCallback.upsert`
unfoldable pub put_delivery :
    PaymentCallback → (PaymentCallback → PaymentCallback) → Tx Orders (Unit {0})
put_delivery row f = do
  there ← gets (λ st. any (is_delivery row.provider row.event_id) st.callbacks)
  if there then update_delivery row.provider row.event_id f else create_delivery row
