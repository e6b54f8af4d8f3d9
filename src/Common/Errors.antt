-- ===== src/Common/Errors.antt =====
-- What a request may fail with: the HTTP exceptions of the services with the reason that travels in
-- `details.reason`, the two errors of the database that the services meet, and a crash.
use ai_cinema_be.Common.{Option}
use ai_cinema_be.Common.Int.{ℤ}

-- `details` of an INSUFFICIENT_COINS answer; a part that an endpoint leaves out is `none`.
pub record Shortfall : Type 0 where
  pub required_coins : ℤ
  pub main_balance : Option ℤ
  pub bonus_balance : Option ℤ
  pub missing_coins : Option ℤ

pub data Reason : Type 0 where
  insufficient_coins : Shortfall → Reason
  nothing_to_adjust split_the_correction payment_not_positive nothing_to_credit : Reason
  wallet_changed : Reason
  episode_not_found episode_not_published episode_not_priced access_already_owned : Reason
  series_not_sold series_access_already_owned : Reason
  already_checked_in_today no_reward_today : Reason
  plan_not_found plan_not_active plan_not_priced subscription_exists subscription_not_pending :
      Reason
  subscription_not_found cancellation_window_closed : Reason
  top_up_already_settled top_up_not_payable amount_mismatch amount_out_of_range : Reason
  top_up_not_found payment_not_found callback_invalid missing_signature : Reason
  invalid_signature provider_not_configured gateway_unreachable provider_not_found : Reason
  project_status project_changed creator_not_active no_production_fee no_episode : Reason
  no_milestone already_published price_alert_not_found alert_handled alert_changed : Reason
  unknown_permissions locked_permissions permission_required : Reason
  account_not_available account_deactivated : Reason
  project_not_found wrong_role : Reason
  revoke_without_reason reviewer_not_found not_enough_tokens fee_below_zero : Reason
  fee_already_allocated fee_not_positive fee_not_allocated fee_without_reason : Reason

pub data Error : Type 0 where
  bad_request unauthorized forbidden not_found conflict unprocessable bad_gateway : Reason → Error
  record_not_found unique_violation crash : Error
