-- ===== src/Membership/AutoRenew.antt =====
-- subscription.service.ts: stopping auto-renew, changing one's mind, and the end that an Admin sets.
use ai_cinema_be.Common.{ℕ, Bool, true, false, Option, none, some, if◌then◌else◌, not}
use ai_cinema_be.Common.Int.{pos, leb_ℤ}
use ai_cinema_be.Common.Action.{Action, done, reads, or_fail, requires, commit, ◌>>=◌, ◌>>◌}
use ai_cinema_be.Common.Errors.{
  not_found, unprocessable, subscription_not_found, cancellation_window_closed,
}
use ai_cinema_be.Settings.{PlatformSetting}
use ai_cinema_be.Access.Rows.{Store, Subscription, SubscriptionStatus}
use ai_cinema_be.Membership.Ending.{end_by_admin}
use ai_cinema_be.Membership.Joining.{find_mine, update_subscription, window_end_of}

-- `autoRenewOf`
pub record AutoRenewView : Type 0 where
  pub id : ℕ
  pub status : SubscriptionStatus
  pub auto_renew : Bool
  pub cancel_requested_at : Option ℕ
  pub access_until : ℕ
  pub current_period_end : ℕ
  pub next_renewal_at : Option ℕ

abbrev pub auto_renew_of : Subscription → AutoRenewView
auto_renew_of p = record {
  id = p.id;
  status = p.status;
  auto_renew = p.auto_renew;
  cancel_requested_at = p.cancel_requested_at;
  access_until = p.current_period_end;
  current_period_end = p.current_period_end;
  next_renewal_at = p.next_renewal_at;
}

-- A renewal that is due at no time has no window.
abbrev pub is_window_open : Option ℕ → ℕ → ℕ → Bool
is_window_open none hours now = true
is_window_open (some at) hours now = not (leb_ℤ (window_end_of at hours) (pos now))

abbrev pub stopped : ℕ → Subscription → Subscription
stopped now p = record p {
  auto_renew = false;
  cancel_requested_at = some now;
  next_renewal_at = none;
}

abbrev pub resumed : ℕ → ℕ → Subscription → Subscription
resumed period_end hours p = record p {
  auto_renew = true;
  cancel_requested_at = none;
  next_renewal_at = some period_end;
  cancel_window_ends_at = some (window_end_of period_end hours);
}

module _ (s : PlatformSetting) where
  unfoldable pub cancel_auto_renew : ℕ → ℕ → ℕ → Action Store AutoRenewView
  cancel_auto_renew user id now = do
    found ← reads (find_mine user id)
    p ← or_fail found (not_found subscription_not_found)
    requires (is_window_open p.next_renewal_at s.subscription_cancel_window_hours now)
        (unprocessable cancellation_window_closed)
    updated ← commit (update_subscription p.id (stopped now))
    done (auto_renew_of updated)

  unfoldable pub resume_auto_renew : ℕ → ℕ → Action Store AutoRenewView
  resume_auto_renew user id = do
    found ← reads (find_mine user id)
    p ← or_fail found (not_found subscription_not_found)
    if p.auto_renew then done (auto_renew_of p) else do
      updated ← commit (
          update_subscription p.id
            (resumed p.current_period_end s.subscription_cancel_window_hours))
      done (auto_renew_of updated)

unfoldable pub cancel_by_admin : ℕ → ℕ → ℕ → Action Store Subscription
cancel_by_admin id actor now = commit (end_by_admin id actor now)
