-- ===== src/TopUp/Settlement/Laws.antt =====
-- What a settlement that goes through has done.
use ai_cinema_be.Common.{if◌then◌else◌, ℕ, ◌≡◌, refl, sym, ap, ◌∙◌, Bool, true, false, not, some}
use ai_cinema_be.Common.Table.{find_row, update_row}
use ai_cinema_be.Common.Lists.{any}
use ai_cinema_be.Common.Transaction.{
  pure, Tx, ok, bind-eq-ok, bind-require-eq-ok, bind-or_throw-eq-ok, ok_snd, on_part_ok,
}
use ai_cinema_be.Settings.{PlatformSetting}
use ai_cinema_be.Wallet.Rows.{Database, Ledger, CoinMovement}
use ai_cinema_be.Wallet.Spend.{credit}
use ai_cinema_be.TopUp.Rows.{
  CoinTopUp, Payment, Orders, OrderView, is_order_pending, is_pending, is_paid, payment_has_id,
  top_up_has_id,
}
use ai_cinema_be.TopUp.Settlement.{
  refuse_amount, SettleRequest, settle, pay_order, on_ledger, top_up_credit, is_amount, or_now,
  order_settled, payment_settled, is_settled_by,
}

pub on_ledger_ok :
    {A : Type 0} (m : Tx Ledger A) (st : Orders) {a : A} {after : Orders}
    → on_ledger m st ≡ ok (a, after)
    → (l : Ledger) × (m st.ledger ≡ ok (a, l)) × (after ≡ record st { ledger = l })
on_ledger_ok m st h = on_part_ok (λ (d : Orders). d.ledger) (λ l d. record d { ledger = l }) m st h

module _ (db : Database) (s : PlatformSetting) (r : SettleRequest) (now : ℕ) (st : Orders) where
  pub record Settled (after : Orders) : Type 0 where
    pub payment : Payment
    pub o : CoinTopUp
    pub l : Ledger
    pub m : CoinMovement
    pub found_payment : find_row r.payment_id st.payments ≡ some payment
    pub payment_pending : is_pending payment.status ≡ true
    pub found_order : find_row payment.coin_top_up_id st.top_ups ≡ some o
    pub order_pending : is_order_pending o.status ≡ true
    pub of_amount : is_amount r.amount_vnd payment.amount_vnd ≡ true
    pub credited :
        credit db s o.wallet_id (top_up_credit o r.idempotency_key) (or_now r.paid_at now) st.ledger
        ≡ ok (m, l)
    pub written : after ≡ record st {
      ledger = l;
      payments =
          update_row payment.id
            (payment_settled r.provider_payment_id (or_now r.paid_at now))
            st.payments;
      top_ups = update_row o.id (order_settled m.transaction_id) st.top_ups;
    }

  abbrev Written : Payment → CoinTopUp → Orders → Type 0
  Written payment o after =
      (l : Ledger) × (m : CoinMovement) × (credit db s o.wallet_id
          (top_up_credit o r.idempotency_key) (or_now r.paid_at now) st.ledger
        ≡ ok (m, l))
      × (after ≡ record st {
        ledger = l;
        payments =
            update_row payment.id (payment_settled r.provider_payment_id (or_now r.paid_at now))
              st.payments;
        top_ups = update_row o.id (order_settled m.transaction_id) st.top_ups;
      })

  pay_order_ok :
      (payment : Payment) (o : CoinTopUp) {v : OrderView} {after : Orders}
      → pay_order db s r now payment o st ≡ ok (v, after)
      → Written payment o after
  unfolding pay_order
  pay_order_ok payment o h =
      let at = or_now r.paid_at now in
      let (m, st₁, paid, h₁) =
        bind-eq-ok (on_ledger (credit db s o.wallet_id (top_up_credit o r.idempotency_key) at) st) _
          h in
      let (l, credited, same) =
        on_ledger_ok (credit db s o.wallet_id (top_up_credit o r.idempotency_key) at) st paid in
      let (free, h₂) =
        bind-require-eq-ok (not (any (is_settled_by m.transaction_id) st₁.top_ups)) _ _ _ h₁ in
      (
        l,
        m,
        credited,
        sym (ok_snd h₂)
            ∙ ap
                (λ (x : Orders). record x {
                  payments =
                      update_row payment.id (payment_settled r.provider_payment_id at) x.payments;
                  top_ups = update_row o.id (order_settled m.transaction_id) x.top_ups;
                })
                same,
      )

  -- `refuse_amount` does not return.
  amount_ok :
      (payment : Payment) (o : CoinTopUp) (b : Bool) {u : Unit {0}} {mid : Orders}
      → (if b then pure tt else refuse_amount r payment o) st ≡ ok (u, mid)
      → (b ≡ true) × (mid ≡ st)
  unfolding refuse_amount
  amount_ok payment o true h = (refl, sym (ok_snd h))
  amount_ok payment o false h = cc

  pub settle_ok :
      {v : OrderView} {after : Orders} → settle db s r now st ≡ ok (v, after) → Settled after
  unfolding settle
  settle_ok h =
      let (payment, found_payment, h₁) =
        bind-or_throw-eq-ok (find_row r.payment_id st.payments) _ st _ h in
      let (unpaid, h₂) = bind-require-eq-ok (not (is_paid payment.status)) _ st _ h₁ in
      let (pending, h₃) = bind-require-eq-ok (is_pending payment.status) _ st _ h₂ in
      let (o, found_order, h₄) =
        bind-or_throw-eq-ok (find_row payment.coin_top_up_id st.top_ups) _ st _ h₃ in
      let (open_order, h₅) = bind-require-eq-ok (is_order_pending o.status) _ st _ h₄ in
      let (u, mid, right, h₆) =
        bind-eq-ok
          ((if is_amount r.amount_vnd payment.amount_vnd
              then pure tt
              else refuse_amount r payment o)
            st)
          _ h₅ in
      let (of_amount, same) = amount_ok payment o _ right in
      let (l, m, credited, written) = pay_order_ok payment o (rw same at h₆) in
      record {
        payment = payment;
        o = o;
        l = l;
        m = m;
        found_payment = found_payment;
        payment_pending = pending;
        found_order = found_order;
        order_pending = open_order;
        of_amount = of_amount;
        credited = credited;
        written = written;
      }
