-- ===== src/Project/Tests.antt =====
-- The theorems on projects at one draft project and one Reviewer.
use ai_cinema_be.Wallet.Sample.{sample_db, sample_settings}
use ai_cinema_be.Project.Rows.{
  PriceAlert, change_requested, PriceAlertStatus, alert_open, TokenEntryType,
  ReviewerTokenEntryType, UserRole, Project, Studio, user_has_id, project_has_id,
  project_episode_has_id,
}
use ai_cinema_be.Access.Rows.{MovieStatus, EpisodeStatus}
use ai_cinema_be.Project.Tokens.{
  assert_can_spend, allocated_by, assert_allowed, granted_to, total_tokens, add_fee_entry, balance,
  BudgetEntryRequest, add_budget_entry, FeeEntryRequest,
}
use ai_cinema_be.Project.Lifecycle.{
  withdraw_releases, update_if, complete_if_all_published, is_release_of, was_released, matches,
  cancel_in, cancel,
}
use ai_cinema_be.Common.Transaction.{err, ok, Result}
use ai_cinema_be.Project.Rules.{
  episode_of, assert_project_status, can_read, project_of, AuthenticatedUser,
}
use ai_cinema_be.Common.{ℕ, ◌⊎◌, refl, arith, [], false, ◌∷◌, ◌≡◌, true, none}
use ai_cinema_be.Common.Int.{◌+ℤ◌, ◌-ℤ◌, pos}
use ai_cinema_be.Project.Tokens.Laws.{IsSolvent}
use ai_cinema_be.Project.Tokens.Solvent.{
  fee, budget, here, after_step, add_budget_entry-IsSolvent, Reach-IsSolvent,
  add_fee_entry-IsSolvent,
}
use ai_cinema_be.Common.Words.{trim_end, trim_start, trim}
use ai_cinema_be.Project.Lifecycle.Laws.{cancel-Cancelled, Cancelled}
use ai_cinema_be.Project.Lifecycle.Completion.{IsDelivered, Completes, complete-all_branches}
use ai_cinema_be.Project.Pricing.{is_in_range, price_episode, raise_alert}
use ai_cinema_be.Project.Pricing.Handlers.{PriceAnswer, set_episode_price}
use ai_cinema_be.Project.Pricing.Laws.{IsPricedAt, set_episode_price-IsPricedAt}

abbrev sample_project : Project
sample_project = record {
  id = 1;
  status = MovieStatus.draft;
  reviewer_id = 3;
  creator_id = none;
  cancel_reason = none;
  assigned_at = none;
  completed_at = none;
  cancelled_at = none;
}

abbrev sample_studio : Studio
sample_studio = record {
  users = record { id = 3; role = UserRole.content_reviewer; is_active = true } ∷ [];
  projects = sample_project ∷ [];
  episodes =
      record {
        id = 8;
        movie_id = 1;
        status = EpisodeStatus.scheduled;
        milestone_date = none;
        coin_price = none;
      }
      ∷ [];
  publications =
      record {
        id = 9;
        episode_id = 8;
        published_at = none;
        unpublished_at = none;
        unpublished_by_id = none;
      }
      ∷ [];
  alerts = [];
  fees = [];
  budgets = [];
  audit_log = [];
  all_readers = [];
}

abbrev the_reviewer : AuthenticatedUser
the_reviewer = record { id = 3; role = UserRole.content_reviewer }

abbrev the_admin : AuthenticatedUser
the_admin = record { id = 1; role = UserRole.admin }

abbrev sample_grant : BudgetEntryRequest
sample_grant = record {
  entry_type = ReviewerTokenEntryType.grant;
  amount_tokens = pos 500;
  reason = none;
}

abbrev sample_fee : FeeEntryRequest
sample_fee = record { entry_type = TokenEntryType.initial; amount_tokens = pos 300; reason = none }

abbrev left : Result (Unit {0} × Studio) → Studio
left (ok r) = r.1
left (err e) = sample_studio

abbrev budgeted : Studio
budgeted = left (add_budget_entry sample_settings 3 sample_grant the_admin sample_studio)

abbrev allocated : Studio
allocated = left (add_fee_entry sample_settings 1 sample_fee the_reviewer budgeted)

sample-IsSolvent : IsSolvent sample_studio
unfolding balance total_tokens granted_to allocated_by ◌-ℤ◌
sample-IsSolvent = record { balances = λ v. omega arith; totals = λ m. omega arith }

Reach-IsSolvent_example : IsSolvent allocated
unfolding add_fee_entry add_budget_entry project_of can_read assert_allowed assert_project_status
    assert_can_spend balance total_tokens granted_to allocated_by ◌-ℤ◌ ◌+ℤ◌
Reach-IsSolvent_example =
    Reach-IsSolvent sample_settings sample_studio allocated
      (after_step sample_studio budgeted allocated
        (after_step sample_studio sample_studio budgeted (here sample_studio)
          (budget 3 sample_grant the_admin sample_studio budgeted tt (omega arith) refl))
        (fee 1 sample_fee the_reviewer budgeted allocated tt refl))
      sample-IsSolvent

budgeted-IsSolvent : IsSolvent budgeted
unfolding add_budget_entry balance total_tokens granted_to allocated_by ◌-ℤ◌ ◌+ℤ◌
budgeted-IsSolvent =
    add_budget_entry-IsSolvent sample_settings 3 sample_grant the_admin sample_studio
      sample-IsSolvent (omega arith) refl

add_fee_entry-IsSolvent_example : IsSolvent allocated
unfolding add_fee_entry add_budget_entry project_of can_read assert_allowed assert_project_status
    assert_can_spend balance total_tokens granted_to allocated_by ◌-ℤ◌ ◌+ℤ◌
add_fee_entry-IsSolvent_example =
    add_fee_entry-IsSolvent sample_settings 1 sample_fee the_reviewer budgeted budgeted-IsSolvent
      refl

cancel-Cancelled_example : Cancelled 1 (cancel 1 [] the_reviewer 50 sample_studio).1
unfolding cancel cancel_in project_of can_read assert_project_status was_released is_release_of
    matches update_if withdraw_releases trim trim_start trim_end
cancel-Cancelled_example = cancel-Cancelled 1 [] the_reviewer 50 sample_studio refl

complete-all_branches_example :
    ((d : IsDelivered 1 sample_studio) × (after : Studio) × (complete_if_all_published 1 70
          sample_studio
        ≡ ok (true, after))
      × Completes 1 70 sample_studio d.project after)
    ⊎ ((¬ IsDelivered 1 sample_studio)
        × (complete_if_all_published 1 70 sample_studio ≡ ok (false, sample_studio)))
complete-all_branches_example = complete-all_branches 1 70 sample_studio

abbrev an_alert : ℕ → PriceAlertStatus → PriceAlert
an_alert id status = record {
  id = id;
  episode_id = 8;
  coin_price = pos 700;
  range_min = pos 5;
  range_max = pos 100;
  status = status;
  set_by_id = 3;
  admin_note = none;
  handled_by_id = none;
  handled_at = none;
}

abbrev two_alerts : Studio
two_alerts = record sample_studio {
  alerts = an_alert 1 alert_open ∷ an_alert 2 change_requested ∷ [];
}

abbrev repriced : Result PriceAnswer × Studio
repriced = set_episode_price sample_db sample_settings 8 (pos 900) the_reviewer 50 two_alerts

abbrev price_answer : Result PriceAnswer → PriceAnswer
price_answer (ok a) = a
price_answer (err e) = record {
  episode_id = 0;
  coin_price = pos 0;
  in_range = false;
  range_min = pos 0;
  range_max = pos 0;
  alert = none;
}

repriced_done : repriced ≡ (ok (price_answer repriced.0), repriced.1)
unfolding set_episode_price episode_of assert_project_status can_read price_episode raise_alert
repriced_done = refl

set_episode_price-IsPricedAt_example :
    IsPricedAt sample_settings 8 (pos 900) (price_answer repriced.0).alert repriced.1
    × ((price_answer repriced.0).in_range ≡ is_in_range sample_settings (pos 900))
set_episode_price-IsPricedAt_example =
    set_episode_price-IsPricedAt sample_db sample_settings 8 (pos 900) the_reviewer 50 two_alerts
      (price_answer repriced.0) repriced.1 repriced_done
