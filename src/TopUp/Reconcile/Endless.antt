-- ===== src/TopUp/Reconcile/Endless.antt =====
-- The sweep asks about the same batch again for as long as the gateways tell it nothing.
use ai_cinema_be.Common.{
  ℕ, zero, suc, ◌≡◌, ◌≤◌, refl, ◌⊎◌, inl, inr, ap, sym, ◌∙◌, subst, none, List, [], ◌∷◌, String,
}
use ai_cinema_be.Common.Lists.{keep, length, length-perm, length-take}
use ai_cinema_be.Common.Errors.{Error}
use ai_cinema_be.Common.Transaction.{ok, err}
use ai_cinema_be.Settings.{PlatformSetting}
use ai_cinema_be.Wallet.Rows.{Database}
use ai_cinema_be.TopUp.Rows.{Payment, Orders, Queries, PaymentProvider}
use ai_cinema_be.TopUp.Callback.{Runtime}
use ai_cinema_be.TopUp.Opening.{Gateways, ReconcileOutcome, Outcome}
use ai_cinema_be.TopUp.Reconcile.{
  probe_batch, is_silent, silent_attempts, act_on, reconcile_one, reconcile_batch, reconcile_due,
}

-- No probe tells anything: it fails, or answers UNKNOWN.
abbrev pub TellsNothing : Gateways → Type 0
TellsNothing g =
    (provider : PaymentProvider) (txn : String) (date : ℕ)
    → ((e : Error) × (g.reconcile_payment provider txn date ≡ err e))
      ⊎ ((r : ReconcileOutcome) × (g.reconcile_payment provider txn date ≡ ok r)
          × (r.outcome ≡ Outcome.unknown))

module _ (db : Database) (s : PlatformSetting) (g : Gateways) (js : Runtime)
    (silent : TellsNothing g) where
  one_same : (p : Payment) (now : ℕ) (st : Orders) → (reconcile_one db s g js p now st).1 ≡ st
  unfolding reconcile_one act_on
  one_same p now st = elim (silent p.provider p.provider_txn_id p.created_at) [
    | inl (e, h) ↦ rw (reconcile_one, h) refl
    | inr (r, h, u) ↦ rw (reconcile_one, h, act_on, u) refl
  ]

  batch_same :
      (ps : List Payment) (now : ℕ) (st : Orders) → (reconcile_batch db s g js ps now st).1 ≡ st
  unfolding reconcile_batch
  batch_same [] now st = refl
  batch_same (p ∷ ps) now st =
      batch_same ps now (reconcile_one db s g js p now st).1 ∙ one_same p now st

  -- While a hundred attempts or more are due and no gateway tells anything of them, the sweep does
  -- not end, however many rounds it is given.
  pub reconcile_due-endless :
      (q : Queries) (fuel now : ℕ) (st : Orders)
      → probe_batch ≤ length (keep (is_silent now st.callbacks) st.payments)
      → reconcile_due db s g js q fuel now st ≡ none
  unfolding reconcile_due silent_attempts
  reconcile_due-endless q zero now st many = refl
  reconcile_due-endless q (suc fuel) now st many =
      let due = keep (is_silent now st.callbacks) st.payments in
      let full : length (silent_attempts q now st) ≡ probe_batch =
        length-take probe_batch (q.order_payments due)
          (subst (λ n. probe_batch ≤ n) (sym (length-perm (q.order_payments-perm due))) many) in
      let again : reconcile_due db s g js q fuel now
            (reconcile_batch db s g js (silent_attempts q now st) now st).1
          ≡ none =
        ap (reconcile_due db s g js q fuel now) (batch_same (silent_attempts q now st) now st)
        ∙ reconcile_due-endless q fuel now st many in
      rw (reconcile_due, full, full, again) refl
