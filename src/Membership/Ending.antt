-- ===== src/Membership/Ending.antt =====
-- The two ends of a subscription: the transaction of `cancelByAdmin` in subscription.service.ts, and
-- `expire` of subscription-renewal.service.ts.
use ai_cinema_be.Common.{ℕ, Bool, true, false, Option, none, some, if◌then◌else◌, leb, not}
use ai_cinema_be.Common.Table.{find_row}
use ai_cinema_be.Common.Transaction.{Tx, pure, gets, ◌>>=◌, ◌>>◌}
use ai_cinema_be.Access.Rows.{
  Store, Subscription, SubscriptionStatus, cancelled_by_admin, payment_failed,
  subscription_cancelled, subscription_expired, subscription_has_id,
}
use ai_cinema_be.Membership.Plans.{record_event}
use ai_cinema_be.Membership.Joining.{update_subscription}

abbrev pub ended_by_admin : ℕ → Subscription → Subscription
ended_by_admin now p = record p {
  status = SubscriptionStatus.cancelled;
  auto_renew = false;
  cancelled_at = some now;
  ended_at = some now;
  end_reason = some cancelled_by_admin;
  next_renewal_at = none;
}

unfoldable pub end_by_admin : ℕ → ℕ → ℕ → Tx Store Subscription
end_by_admin id actor now = do
  p ← update_subscription id (ended_by_admin now)
  record_event subscription_cancelled p.id (some actor)
  pure p

abbrev pub ended_unpaid : ℕ → Subscription → Subscription
ended_unpaid now p = record p {
  status = SubscriptionStatus.expired;
  auto_renew = false;
  ended_at = some now;
  end_reason = some payment_failed;
  next_renewal_at = none;
}

abbrev pub is_past_due : SubscriptionStatus → Bool
is_past_due SubscriptionStatus.past_due = true
is_past_due _ = false

-- A retry that is still to come.
abbrev pub is_later : Option ℕ → ℕ → Bool
is_later none now = false
is_later (some at) now = not (leb at now)

abbrev pub if_unpaid : ℕ → Option Subscription → Option Subscription
if_unpaid now none = none
if_unpaid now (some p) =
    if is_past_due p.status then (if is_later p.next_renewal_at now then none else some p) else none

unfoldable pub end_unpaid : Option Subscription → ℕ → Tx Store Bool
end_unpaid none now = pure false
end_unpaid (some p) now = do
  ended ← update_subscription p.id (ended_unpaid now)
  record_event subscription_expired p.id none
  pure true

-- `expire`
unfoldable pub expire_plan : ℕ → ℕ → Tx Store Bool
expire_plan id now = do
  found ← gets (λ st. if_unpaid now (find_row id st.subscriptions))
  end_unpaid found now
