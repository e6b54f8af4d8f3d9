-- ===== src/TopUp/Expiry.antt =====
-- top-up-expiry.sweep.ts: orders left pending past their expiry are closed, with their attempts.
pub mod Ends
use mathlib.Core.Option
use ai_cinema_be.Common.{
  ℕ, zero, suc, ◌+◌, Bool, true, false, ◌&&◌, Option, none, some, List, map, if◌then◌else◌, leb,
  ltb, ◌==◌,
}
use ai_cinema_be.Common.Lists.{keep, length, take, any}
use ai_cinema_be.TopUp.Rows.{
  CoinTopUp, Payment, Orders, Queries, TopUpStatus, PaymentStatus, is_order_pending, is_pending,
  order_expired,
}
use ai_cinema_be.TopUp.Settlement.{order_to, payment_to}

-- `const BATCH = 100`
abbrev pub order_batch : ℕ
order_batch = 100

-- The `where` of the sweep's query.
abbrev pub is_stale : ℕ → CoinTopUp → Bool
is_stale now o = is_order_pending o.status && leb o.expires_at now

unfoldable pub stale_orders : Queries → ℕ → Orders → List CoinTopUp
stale_orders q now st = take order_batch (q.order_top_ups (keep (is_stale now) st.top_ups))

-- `{ in: stale.map(({ id }) => id) }`
abbrev pub is_among : ℕ → List CoinTopUp → Bool
is_among id stale = any (λ (o : CoinTopUp). o.id == id) stale

-- `updateMany`, guarded on the status.
abbrev pub close_order : List CoinTopUp → CoinTopUp → CoinTopUp
close_order stale o =
    if is_among o.id stale && is_order_pending o.status
    then order_to TopUpStatus.expired (some order_expired) o
    else o

abbrev pub close_payment : List CoinTopUp → Payment → Payment
close_payment stale p =
    if is_among p.coin_top_up_id stale && is_pending p.status
    then payment_to PaymentStatus.expired (some order_expired) p
    else p

-- The count that `updateMany` returns.
abbrev pub closed_by : List CoinTopUp → List CoinTopUp → ℕ
closed_by stale orders =
    length (keep (λ (o : CoinTopUp). is_among o.id stale && is_order_pending o.status) orders)

unfoldable pub close_stale : List CoinTopUp → Orders → Orders
close_stale stale st = record st {
  top_ups = map (close_order stale) st.top_ups;
  payments = map (close_payment stale) st.payments;
}

-- The `for (;;)` of `expireDue`, on fuel; `none` is fuel that ran out. The result is how many orders
-- were closed.
unfoldable pub expire_due_orders : Queries → ℕ → ℕ → Orders → Option (ℕ × Orders)
expire_due_orders q zero now st = none
expire_due_orders q (suc fuel) now st =
    let stale = stale_orders q now st in
    let after = close_stale stale st in
    let count = closed_by stale st.top_ups in
    let rest = expire_due_orders q fuel now after in
    elim (length stale == 0) [
      | true ↦ some (0, st)
      | false ↦ elim (ltb (length stale) order_batch) [
        | true ↦ some (count, after)
        | false ↦ Option.map (λ (r : ℕ × Orders). (count + r.0, r.1)) rest
      ]
    ]
