-- ===== src/TopUp/Reconcile.antt =====
-- payment-reconcile.sweep.ts: attempts that never got a callback are asked about at the gateway.
pub mod Endless
use mathlib.Core.Option
use ai_cinema_be.Common.{
  ℕ, zero, suc, ◌+◌, Bool, true, false, not, ◌&&◌, Option, none, some, List, [], ◌∷◌, if◌then◌else◌,
  leb, ltb, ◌==◌,
}
use ai_cinema_be.Common.Int.{ℤ}
use ai_cinema_be.Common.Lists.{keep, length, take, any}
use ai_cinema_be.Common.Transaction.{Result, ok, err}
use ai_cinema_be.Common.Action.{commit}
use ai_cinema_be.Common.Errors.{Error}
use ai_cinema_be.Settings.{PlatformSetting}
use ai_cinema_be.Wallet.Rows.{Database}
use ai_cinema_be.TopUp.Rows.{
  Payment, PaymentCallback, Orders, Queries, is_pending, no_payment_known,
}
use ai_cinema_be.TopUp.Callback.{Runtime}
use ai_cinema_be.TopUp.Settlement.{Failure, SettleRequest, settle, mark_payment_failed}
use ai_cinema_be.TopUp.Opening.{Gateways, ReconcileOutcome, Outcome}
use ai_cinema_be.TopUp.Webhook.{is_settled_elsewhere, or_text, top_up_key}

-- `const BATCH = 100` and `RECONCILE_AFTER_MS`
abbrev pub probe_batch : ℕ
probe_batch = 100

abbrev pub reconcile_after_ms : ℕ
reconcile_after_ms = 600_000

abbrev pub is_handled_for : ℕ → PaymentCallback → Bool
is_handled_for id c = elim c.payment_id [
  | none ↦ false
  | some i ↦ elim c.handled_at [ none ↦ false | some at ↦ i == id ]
]

-- The `where` of the sweep's query.
abbrev pub is_silent : ℕ → List PaymentCallback → Payment → Bool
is_silent now callbacks p =
    is_pending p.status
    && (leb (p.created_at + reconcile_after_ms) now && not (any (is_handled_for p.id) callbacks))

unfoldable pub silent_attempts : Queries → ℕ → Orders → List Payment
silent_attempts q now st =
    take probe_batch (q.order_payments (keep (is_silent now st.callbacks) st.payments))

-- How many attempts waited, and how many were settled and failed.
pub record Tally : Type 0 where
  pub pending : ℕ
  pub settled : ℕ
  pub failed : ℕ

abbrev pub add_tally : Tally → Tally → Tally
add_tally a b = record {
  pending = a.pending + b.pending;
  settled = a.settled + b.settled;
  failed = a.failed + b.failed;
}

abbrev pub tally : ℕ → ℕ → Tally
tally settled failed = record { pending = 1; settled = settled; failed = failed }

abbrev pub or_amount : Option (Option ℤ) → ℤ → Option ℤ
or_amount none d = some d
or_amount (some a) d = a

-- The `catch` of one attempt.
unfoldable pub caught : Error → Tally
caught e = if is_settled_elsewhere e then tally 1 0 else tally 0 0

abbrev counted : {A : Type 0} → Result A → Tally → Tally
counted (ok a) t = t
counted (err e) t = caught e

module _ (db : Database) (s : PlatformSetting) (g : Gateways) (js : Runtime) where
  abbrev pub probe_request : Payment → ReconcileOutcome → SettleRequest
  probe_request p r = record {
    payment_id = p.id;
    provider_payment_id = or_text r.provider_payment_id p.provider_txn_id;
    amount_vnd = or_amount r.amount_vnd p.amount_vnd;
    idempotency_key = top_up_key js p.coin_top_up_id;
    paid_at = r.paid_at;
  }

  -- What one probe leads to. An error of the database is caught, too, so that nothing is thrown.
  unfoldable pub act_on : Payment → Outcome → ReconcileOutcome → ℕ → Orders → Tally × Orders
  act_on p Outcome.paid r now st =
      let tried = commit (settle db s (probe_request p r) now) st in
      (counted tried.0 (tally 1 0), tried.1)
  act_on p Outcome.failed r now st =
      let tried = commit (mark_payment_failed p.id no_payment_known Failure.failed) st in
      (counted tried.0 (tally 0 1), tried.1)
  act_on p Outcome.unknown r now st = (tally 0 0, st)

  unfoldable pub reconcile_one : Payment → ℕ → Orders → Tally × Orders
  reconcile_one p now st = elim (g.reconcile_payment p.provider p.provider_txn_id p.created_at) [
    | ok r ↦ act_on p r.outcome r now st
    | err e ↦ (caught e, st)
  ]

  unfoldable pub reconcile_batch : List Payment → ℕ → Orders → Tally × Orders
  reconcile_batch [] now st = (record { pending = 0; settled = 0; failed = 0 }, st)
  reconcile_batch (p ∷ ps) now st =
      let first = reconcile_one p now st in
      let rest = reconcile_batch ps now first.1 in (add_tally first.0 rest.0, rest.1)

  -- The `for (;;)` of `reconcileDue`, on fuel; `none` is fuel that ran out.
  unfoldable pub reconcile_due : Queries → ℕ → ℕ → Orders → Option (Tally × Orders)
  reconcile_due q zero now st = none
  reconcile_due q (suc fuel) now st =
      let stale = silent_attempts q now st in
      let after = reconcile_batch stale now st in
      let rest = reconcile_due q fuel now after.1 in
      elim (length stale == 0) [
        | true ↦ some (record { pending = 0; settled = 0; failed = 0 }, st)
        | false ↦ elim (ltb (length stale) probe_batch) [
          | true ↦ some after
          | false ↦ Option.map (λ (r : Tally × Orders). (add_tally after.0 r.0, r.1)) rest
        ]
      ]
