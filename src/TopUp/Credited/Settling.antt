-- ===== src/TopUp/Credited/Settling.antt =====
-- Settling an order, opening one and closing one keep the credits of every order in step.
use ai_cinema_be.Common.{
  arith, Option, none, ℕ, ◌≡◌, ◌≢◌, inl, inr, refl, sym, ap, ◌∙◌, some, List, ◌∷◌, ◌==◌, ==_iff,
  Bool-cases,
}
use ai_cinema_be.Common.Int.{ℤ, pos, ◌+ℤ◌, int_laws, parts_eq}
use ai_cinema_be.Common.Table.{
  found_rows, All-zip, update_row-All_at, find_row-update_none, update_row-IsUnique, find_row,
  find_row-id, some_eq,
}
use ai_cinema_be.Settings.{PlatformSetting}
use ai_cinema_be.Wallet.Rows.{Ledger, Database, CoinTransaction, CoinReferenceType}
use ai_cinema_be.Wallet.Sums.{share}
use ai_cinema_be.Wallet.Spend.Single.{credit_cases, Credits}
use ai_cinema_be.TopUp.Rows.{
  FailureReason, CoinTopUp, Orders, is_order_pending, top_up_has_id, payment_has_id,
}
use ai_cinema_be.TopUp.Settlement.{
  order_failure, order_to, or_now, mark_payment_failed, Failure, SettleRequest, top_up_credit,
  order_settled,
}
use ai_cinema_be.TopUp.Settlement.Laws.{Settled}
use ai_cinema_be.TopUp.Credited.{
  update_order-IsCreditedOnce, credited, pays, IsCredited, IsCreditedOnce, MovesOn,
}
use ai_cinema_be.Common.Transaction.{ok_snd, bind-or_throw-eq-ok, ok}

pub settled-MovesOn : (t : ℕ) → MovesOn (order_settled t)
settled-MovesOn t = record { same_id = λ o. refl; same_coins = λ o. refl; not_back = λ o h. cc }

pays_id :
    (i id : ℕ) (row : CoinTransaction)
    → row.reference_type ≡ some CoinReferenceType.coin_top_up
    → row.reference_id ≡ some id
    → pays i row ≡ (id == i)
pays_id i id row t e = rw (t, e) refl

-- One more row for the order `id`.
one_more :
    (i id : ℕ) (row : CoinTransaction) (rows : List CoinTransaction) (coins : ℤ)
    → row.reference_type ≡ some CoinReferenceType.coin_top_up
    → row.reference_id ≡ some id
    → row.main_amount ≡ coins
    → credited i (row ∷ rows) ≡ share (id == i) coins +ℤ credited i rows
one_more i id row rows coins t e m = rw (t, e, m) refl

others_kept : (i id : ℕ) (coins sum : ℤ) → i ≢ id → share (id == i) coins +ℤ sum ≡ sum
others_kept i id coins sum n = elim (Bool-cases (id == i)) [
  | inl t ↦ absurd (n (sym ((==_iff id i).0 t)))
  | inr t ↦ rw t (omega int_laws)
]

own_credit : (id : ℕ) (coins sum : ℤ) → sum ≡ pos 0 → share (id == id) coins +ℤ sum ≡ coins
own_credit id coins sum z = rw ((==_iff id id).1 refl) (omega (int_laws, parts_eq z))

module _ (db : Database) (s : PlatformSetting) (r : SettleRequest) (now : ℕ) (st after : Orders)
    (d : Settled db s r now st after) (c : IsCreditedOnce st) where
  abbrev CreditRow : Type 0
  CreditRow = Credits (top_up_credit d.o r.idempotency_key) d.m st.ledger d.l

  own_order : (y : CoinTopUp) → y.id ≡ d.o.id → find_row y.id st.top_ups ≡ some y → y ≡ d.o
  own_order y e f = some_eq (sym f ∙ ap (λ i. find_row i st.top_ups) (e ∙ order_id) ∙ d.found_order)
    where
      order_id : d.o.id ≡ d.payment.coin_top_up_id
      order_id = find_row-id d.payment.coin_top_up_id st.top_ups d.o d.found_order

  credited_after :
      (w : CreditRow) (i : ℕ)
      → credited i d.l.transactions
        ≡ share (d.o.id == i) d.o.coins_granted +ℤ credited i st.ledger.transactions
  credited_after w i =
      ap (credited i) w.added
      ∙ one_more i d.o.id w.row st.ledger.transactions d.o.coins_granted w.of_type w.of_id w.of_main

  other_order :
      (w : CreditRow) (y : CoinTopUp)
      → y.id ≢ d.o.id
      → IsCredited st.ledger.transactions y
      → IsCredited d.l.transactions y
  other_order w y n (p, q) =
      rw
        (credited_after w y.id
          ∙ others_kept y.id d.o.id d.o.coins_granted (credited y.id st.ledger.transactions) n)
        (p, q)

  the_order :
      (w : CreditRow) (y : CoinTopUp)
      → y ≡ d.o
      → IsCredited st.ledger.transactions y
      → IsCredited d.l.transactions (order_settled d.m.transaction_id y)
  the_order w y e (p, q) = (
    λ t. cc,
    inr (
        rw e (
          credited_after w d.o.id
          ∙ own_credit d.o.id d.o.coins_granted (credited d.o.id st.ledger.transactions) (
              rw e at
                (p (ap (λ (x : CoinTopUp). is_order_pending x.status) e ∙ d.order_pending))))),
  )

  paid-IsCreditedOnce : CreditRow → IsCreditedOnce after
  paid-IsCreditedOnce w = rw d.written (record {
    unique =
        update_row-IsUnique d.o.id (order_settled d.m.transaction_id) st.top_ups (λ y. refl)
          c.unique;
    unknown = λ i h.
        let gone =
          find_row-update_none d.o.id i (order_settled d.m.transaction_id) st.top_ups (λ y. refl)
            h in
        credited_after w i
        ∙ others_kept i d.o.id d.o.coins_granted (credited i st.ledger.transactions)
            (λ e. unknown_order i gone e)
        ∙ c.unknown i gone;
    orders =
        update_row-All_at
          (λ y. IsCredited st.ledger.transactions y × (find_row y.id st.top_ups ≡ some y))
          (IsCredited d.l.transactions) d.o.id (order_settled d.m.transaction_id) st.top_ups
          c.unique (λ y e p. the_order w y (own_order y e p.1) p.0) (λ y n p. other_order w y n p.0)
          (All-zip _ _ _ st.top_ups (λ y p q. (p, q)) c.orders (found_rows st.top_ups c.unique));
  })
    where
      unknown_order : (i : ℕ) → find_row i st.top_ups ≡ none → i ≢ d.o.id
      unknown_order i gone e = absurd (
          cc (
            sym gone
            ∙ ap (λ j. find_row j st.top_ups)
                (e ∙ find_row-id d.payment.coin_top_up_id st.top_ups d.o d.found_order)
            ∙ d.found_order))

  pub Settled-IsCreditedOnce : IsCreditedOnce after
  Settled-IsCreditedOnce =
      elim (credit_cases db s d.o.wallet_id (top_up_credit d.o r.idempotency_key)
        (or_now r.paid_at now) st.ledger refl (omega arith) d.credited) [
          | inl same ↦
              update_order-IsCreditedOnce (order_settled d.m.transaction_id)
                (settled-MovesOn d.m.transaction_id) d.o.id st after
                (ap (λ (x : Orders). x.ledger.transactions) d.written
                  ∙ ap (λ (x : Ledger). x.transactions) same)
                (ap (λ (x : Orders). x.top_ups) d.written) c
          | inr w ↦ paid-IsCreditedOnce w
        ]

-- A failure that is mirrored onto an order.
pub failed-MovesOn :
    (k : Failure) (reason : Option FailureReason) → MovesOn (order_to (order_failure k) reason)
failed-MovesOn Failure.failed reason = record {
  same_id = λ o. refl;
  same_coins = λ o. refl;
  not_back = λ o h. cc;
}
failed-MovesOn Failure.cancelled reason = record {
  same_id = λ o. refl;
  same_coins = λ o. refl;
  not_back = λ o h. cc;
}

pub mark_payment_failed-IsCreditedOnce :
    (id : ℕ) (reason : FailureReason) (k : Failure) (st : Orders) {u : Unit {0}} {after : Orders}
    → IsCreditedOnce st
    → mark_payment_failed id reason k st ≡ ok (u, after)
    → IsCreditedOnce after
unfolding mark_payment_failed
mark_payment_failed-IsCreditedOnce id reason k st {after = after} c h =
    let (payment, found, h₁) = bind-or_throw-eq-ok (find_row id st.payments) _ st _ h in
    let (o, found_order, h₂) =
      bind-or_throw-eq-ok (find_row payment.coin_top_up_id st.top_ups) _ _ _ h₁ in
    update_order-IsCreditedOnce (order_to (order_failure k) (some reason))
      (failed-MovesOn k (some reason)) payment.coin_top_up_id st after
      (ap (λ (x : Orders). x.ledger.transactions) (sym (ok_snd h₂)))
      (ap (λ (x : Orders). x.top_ups) (sym (ok_snd h₂))) c
