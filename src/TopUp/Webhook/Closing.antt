-- ===== src/TopUp/Webhook/Closing.antt =====
-- What answers a delivery leaves it on record as handled.
use ai_cinema_be.TopUp.Webhook
use ai_cinema_be.Common.{
  false, if◌then◌else◌, ◌||◌, not, ◌∙◌, Option-cases, none, ap, sym, Bool, Option, ℕ, ◌≡◌, refl,
  subst, true, List, [], ◌∷◌, some, String, Bool-cases, inl, inr,
}
use ai_cinema_be.Common.Lists.{any, find}
use ai_cinema_be.Common.Transaction.{err, Result, ok, ok_snd, ok_eq, bind-require-eq-ok}
use ai_cinema_be.Common.Action.{next, ◌>>=◌, bind-eq-ok, fail, Action, commit, commit_ok}
use ai_cinema_be.TopUp.Rows.{
  is_order_pending, is_pending, is_paid, OrderView, CoinTopUp, Payment, PaymentCallback, Orders,
  PaymentProvider,
}
use ai_cinema_be.TopUp.Deliveries.{is_delivery, delivery, update_delivery, update_deliveries}
use ai_cinema_be.TopUp.Webhook.{handled, if_handled}
use ai_cinema_be.Common.Errors.{invalid_signature, bad_request, unique_violation, Error}
use ai_cinema_be.TopUp.Callback.{Runtime, GatewayCallback}
use ai_cinema_be.Wallet.Rows.{Database}
use ai_cinema_be.Settings.{PlatformSetting}
use ai_cinema_be.TopUp.Lookup.{resolve_payment, top_up_view}
use ai_cinema_be.TopUp.Lookup.Laws.{top_up_view-same}
use ai_cinema_be.Common.Int.{eqb_ℤ}
use ai_cinema_be.TopUp.Settlement.{settle}

module _ (provider : PaymentProvider) (event : String) where
  -- The delivery is on record with an instant at which it was handled.
  abbrev pub IsHandled : Orders → Type 0
  IsHandled st = (c : PaymentCallback) × (if_handled (delivery provider event st) ≡ some c)

  find_updated :
      (now : ℕ) (cs : List PaymentCallback)
      → any (is_delivery provider event) cs ≡ true
      → (c : PaymentCallback) × (find
            (is_delivery provider event)
            (update_deliveries provider event (handled now) cs)
          ≡ some (handled now c))
  unfolding update_deliveries
  find_updated now [] h = absurd (cc)
  find_updated now (c ∷ cs) h = elim (Bool-cases (is_delivery provider event c)) [
    | inl t ↦ (c, rw t (rw t refl))
    | inr t ↦ let (d, found) = find_updated now cs (rw t at h) in (d, rw t (rw t found))
  ]

  closed_ok :
      (now : ℕ) (st : Orders) {u : Unit {0}} {after : Orders}
      → commit (update_delivery provider event (handled now)) st ≡ (ok u, after)
      → IsHandled after
  unfolding update_delivery delivery
  closed_ok now st h =
      let (there, h₁) =
        bind-require-eq-ok (any (is_delivery provider event) st.callbacks) _ st _
          (commit_ok (update_delivery provider event (handled now)) st h) in
      let (c, found) = find_updated now st.callbacks there in
      subst IsHandled (ok_snd h₁) (handled now c, rw found refl)

  -- An action that answers leaves the delivery handled.
  abbrev pub Closes : Action Orders OrderView → Type 0
  Closes m = (st : Orders) (v : OrderView) (after : Orders) → m st ≡ (ok v, after) → IsHandled after

  Closes-fail : (e : Error) → Closes (fail e)
  Closes-fail e st v after h = cc

  Closes-if :
      (t : Bool) (m k : Action Orders OrderView) → Closes m → Closes k → Closes (if t then m else k)
  Closes-if true m k p q = p
  Closes-if false m k p q = q

  Closes-bind :
      {A : Type 0} (m : Action Orders A) (f : A → Action Orders OrderView)
      → ((a : A) → Closes (f a))
      → Closes (m >>= f)
  Closes-bind m f p st v after h =
      let (a, mid, first, second) = bind-eq-ok (m st) f h in p a mid v after second

  -- A view after the delivery was handled.
  view-IsHandled :
      (id : Option ℕ) (st : Orders) (v : OrderView) (after : Orders)
      → IsHandled st
      → top_up_view id st ≡ (ok v, after)
      → IsHandled after
  view-IsHandled id st v after c h =
      subst IsHandled (sym (top_up_view-same id st) ∙ ap (λ (p : Result OrderView × Orders). p.1) h)
        c

module _ (provider : PaymentProvider) (callback : GatewayCallback) (now : ℕ) where
  Closes-answer :
      (id : ℕ) → Closes provider callback.event_id (Webhook.answer_with provider callback now id)
  unfolding Webhook.answer_with
  Closes-answer id st v after h =
      let (u, mid, first, second) =
        bind-eq-ok (commit (update_delivery provider callback.event_id (handled now)) st) _ h in
      view-IsHandled provider callback.event_id (some id) mid v after
        (closed_ok provider callback.event_id now st first) second

  Closes-decline :
      (payment : Payment) (o : CoinTopUp)
      → Closes provider callback.event_id (Webhook.decline provider callback now payment o)
  unfolding Webhook.decline
  Closes-decline payment o = Closes-bind provider callback.event_id _ _ (λ u. Closes-answer o.id)

  Closes-reject :
      (payment : Payment)
      → Closes provider callback.event_id (Webhook.reject provider callback now payment)
  unfolding Webhook.reject
  Closes-reject payment =
      Closes-bind provider callback.event_id _ _ (λ u. Closes-fail provider callback.event_id _)

  Closes-refuse :
      (payment : Payment) (o : CoinTopUp)
      → Closes provider callback.event_id (Webhook.refuse_delivery provider callback now payment o)
  unfolding Webhook.refuse_delivery
  Closes-refuse payment o st v after h = Closes-reject payment _ v after h

  Closes-after :
      (o : CoinTopUp) (r : Result OrderView)
      → Closes provider callback.event_id (Webhook.after_settle provider callback now o r)
  unfolding Webhook.after_settle
  Closes-after o (ok view) st v after h =
      let (u, mid, first, second) =
        bind-eq-ok (commit (update_delivery provider callback.event_id (handled now)) st) _ h in
      subst (IsHandled provider callback.event_id)
        (ap (λ (p : Result OrderView × Orders). p.1) second)
        (closed_ok provider callback.event_id now st first)
  Closes-after o (err e) st v after h =
      Closes-if provider callback.event_id (Webhook.is_settled_elsewhere e) _ _ (Closes-answer o.id)
        (Closes-bind provider callback.event_id _ _ (λ u. Closes-fail provider callback.event_id e))
        st v after h

  module _ (db : Database) (s : PlatformSetting) (js : Runtime) where
    Closes-confirm :
        (payment : Payment) (o : CoinTopUp)
        → Closes provider callback.event_id
            (Webhook.confirm provider callback now db s js payment o)
    unfolding Webhook.confirm
    Closes-confirm payment o st v after h =
        let tried =
          commit (settle db s (Webhook.settle_request provider callback now js payment o) now) st in
        Closes-after o tried.0 tried.1 v after h

    Closes-deliver :
        (payment : Payment) (o : CoinTopUp)
        → Closes provider callback.event_id
            (Webhook.deliver provider callback now db s js payment o)
    unfolding Webhook.deliver
    Closes-deliver payment o =
        Closes-if provider callback.event_id (is_paid payment.status) _ _ (Closes-answer o.id) (
          Closes-if provider callback.event_id
            (not (is_pending payment.status) || not (is_order_pending o.status)) _ _
            (Closes-answer o.id)
            (Closes-if provider callback.event_id (not (Webhook.is_success callback.status)) _ _
              (Closes-decline payment o)
              (Closes-if provider callback.event_id
                (not (eqb_ℤ callback.amount_vnd payment.amount_vnd)) _ _ (Closes-refuse payment o)
                (Closes-confirm payment o))))

    -- A winner that is named is on record as handled.
    abbrev Won : Option PaymentCallback → Orders → Type 0
    Won none st = Unit {0}
    Won (some c) st = IsHandled provider callback.event_id st

    Won-if : (st : Orders) → Won (if_handled (delivery provider callback.event_id st)) st
    Won-if st = elim (Option-cases (if_handled (delivery provider callback.event_id st))) [
      | inl e ↦ rw e tt
      | inr (c, e) ↦ rw e (c, e)
    ]

    Won-recorded :
        (r : Result (Unit {0})) (st : Orders) (w : Option PaymentCallback) (after : Orders)
        → Webhook.after_record provider callback now db s js r st ≡ (ok w, after)
        → Won w after
    unfolding Webhook.after_record
    Won-recorded (ok u) st none after h = tt
    Won-recorded (ok u) st (some c) after h = cc
    Won-recorded (err unique_violation) st w after h =
        let named = ap (λ (p : Result (Option PaymentCallback) × Orders). p.0) h in
        let same = ap (λ (p : Result (Option PaymentCallback) × Orders). p.1) h in
        subst (Won w) same (subst (λ x. Won x st) (ok_eq named) (Won-if st))
    Won-recorded (err e) st w after h = cc

    Won-known :
        (replayed : Option PaymentCallback) (found : Payment × CoinTopUp) (st : Orders)
        (w : Option PaymentCallback) (after : Orders)
        → Webhook.known_or_recorded provider callback now db s js replayed found st ≡ (ok w, after)
        → Won w after
    unfolding Webhook.record_delivery
    Won-known none found st w after h = Won-recorded _ _ w after h
    Won-known (some c) found st none after h = tt
    Won-known (some c) found st (some d) after h = cc

    Closes-once :
        (w : Option PaymentCallback) (found : Payment × CoinTopUp) (st : Orders) (v : OrderView)
        (after : Orders)
        → Won w st
        → Webhook.deliver_once provider callback now db s js w found st ≡ (ok v, after)
        → IsHandled provider callback.event_id after
    unfolding Webhook.deliver_once
    Closes-once none found st v after won h = Closes-deliver found.0 found.1 st v after h
    Closes-once (some c) found st v after won h =
        view-IsHandled provider callback.event_id c.top_up_id st v after won h

    Closes-first :
        (replayed : Option PaymentCallback)
        → Closes provider callback.event_id
            (Webhook.first_delivery provider callback now db s js replayed)
    unfolding Webhook.first_delivery
    Closes-first replayed st v after h =
        let (found, st₁, resolved, h₁) =
          bind-eq-ok (resolve_payment provider callback.provider_txn_id callback.top_up_id st) _
            h in
        let (w, st₂, known, h₂) =
          bind-eq-ok (Webhook.known_or_recorded provider callback now db s js replayed found st₁) _
            h₁ in
        Closes-once w found st₂ v after (Won-known replayed found st₁ w st₂ known) h₂

    pub Closes-accept :
        Closes provider callback.event_id (Webhook.accept provider callback now db s js)
    unfolding Webhook.accept Webhook.unless_handled
    Closes-accept st v after h =
        let replayed = delivery provider callback.event_id st in
        elim (Option-cases (if_handled replayed)) [
          | inl e ↦ Closes-first replayed st v after (rw e at h)
          | inr (c, e) ↦
              view-IsHandled provider callback.event_id c.top_up_id st v after (c, e) (rw e at h)
        ]

    -- A handled delivery is answered from its row.
    pub accept_handled :
        (st : Orders) (c : PaymentCallback)
        → if_handled (delivery provider callback.event_id st) ≡ some c
        → Webhook.accept provider callback now db s js st ≡ top_up_view c.top_up_id st
    unfolding Webhook.accept Webhook.unless_handled
    accept_handled st c e = rw e refl

  -- An action that ends in an error does not answer.
  never_answers :
      {A : Type 0} (r : Result A × Orders) (e : Error) {v : OrderView} {after : Orders}
      → next r (λ u. fail {S = Orders} e) ≡ (ok v, after)
      → ok v ≡ err e
  never_answers (ok u, mid) e h = cc
  never_answers (err x, mid) e h = cc

  pub signature_refused :
      (st : Orders) {v : OrderView} {after : Orders}
      → Webhook.refuse_signature provider callback now st ≡ (ok v, after)
      → ok v ≡ err (bad_request invalid_signature)
  unfolding Webhook.refuse_signature
  signature_refused st h = never_answers _ (bad_request invalid_signature) h
