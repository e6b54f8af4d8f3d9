-- ===== src/Membership/Tests.antt =====
-- The theorems on plans at a weekly plan, and at fifty members of a plan that was taken off sale.
use mathlib.Core.List.Permᴰ
use ai_cinema_be.Common.{
  inl, arith, ℕ, zero, suc, Bool, true, false, none, some, String, List, [], ◌∷◌, ◌≡◌, ◌≢◌, ◌<◌,
  refl,
}
use ai_cinema_be.Common.Int.{pos, ◌+ℤ◌, ◌-ℤ◌, neg, min_ℤ}
use ai_cinema_be.Common.Lists.{All, keep, any}
use ai_cinema_be.Common.Table.{IsUnique}
use ai_cinema_be.Common.Transaction.{Result, ok, err}
use ai_cinema_be.Wallet.Sample.{sample_db, sample_settings, sample_ledger}
use ai_cinema_be.Access.Rows.{
  Store, Subscription, SubscriptionStatus, MembershipPlan, MembershipPlanPrice, PlanPeriod,
  has_running_plan, subscription_has_id, plan_has_id, price_has_id,
}
use ai_cinema_be.Access.Episodes.{is_owned}
use ai_cinema_be.Membership.Plans.{
  PlanView, view_of, current_price, newest_price, open_price, set_price,
}
use ai_cinema_be.Membership.Joining.{find_mine, update_subscription, create_cycle}
use ai_cinema_be.Membership.AutoRenew.{auto_renew_of, stopped, cancel_auto_renew}
use ai_cinema_be.Membership.Renewal.{
  RenewalOutcome, nothing_done, renew, renew_if, renew_on, charge_cycle, tried, charge_of,
  after_payment, mark_past_due, move_on,
}
use ai_cinema_be.Wallet.Members.{wallet_of, or_new, wallet_of_user}
use ai_cinema_be.Wallet.Spend.{
  movement_of, bonus_after_debits, lot_rows, debit_row, first_id, write_entries, unless_replayed,
  replayed, pay_from, debit, spend,
}
use ai_cinema_be.Wallet.Lots.{
  bump_wallet, find_by_key, create_entry, create_entries, consume_lots, take_lots, spendable_lots,
  locked,
}
use ai_cinema_be.Membership.Renewed.{IsOutcome}
use ai_cinema_be.Membership.Outcome.{renew-IsOutcome}
use ai_cinema_be.Membership.Pricing.{IsSinglePrice, set_price-current}
use ai_cinema_be.Membership.Sweep.{RenewalOrder, is_renewal_due, renew_pass}
use ai_cinema_be.Membership.Sweep.RunsOn.{after_runs, cancel_auto_renew-runs_on}
use ai_cinema_be.Membership.Sweep.Endless.{IsOffSale, renew_pass-endless}

abbrev weekly : Bool → MembershipPlan
weekly on_sale = record {
  id = 1;
  code = "W";
  name = "Weekly";
  period = PlanPeriod.weekly;
  duration_days = 7;
  is_free = false;
  is_active = on_sale;
  sort_order = pos 0;
  is_featured = false;
  created_by_id = 9;
}

abbrev old_price : MembershipPlanPrice
old_price = record {
  id = 1;
  plan_id = 1;
  price_coins = pos 10;
  effective_from = 0;
  effective_to = none;
  set_by_id = 9;
}

abbrev joined : ℕ → Subscription
joined id = record {
  id = id;
  user_id = 7;
  plan_id = 1;
  status = SubscriptionStatus.active;
  auto_renew = true;
  price_coins = pos 20;
  started_at = 0;
  current_period_start = 0;
  current_period_end = 604_800_000;
  next_renewal_at = some 604_800_000;
  cancel_requested_at = none;
  cancel_window_ends_at = some (pos 518_400_000);
  cancelled_at = none;
  ended_at = none;
  end_reason = none;
  renewals_completed = 0;
  last_renewed_at = none;
}

abbrev one_member : Store
one_member = record {
  ledger = sample_ledger;
  movies = [];
  episodes = [];
  episode_accesses = [];
  series_accesses = [];
  subscriptions = joined 1 ∷ [];
  plans = weekly true ∷ [];
  prices = old_price ∷ [];
  cycles = [];
  audit_log = [];
}

abbrev any_order : RenewalOrder
any_order = record { by_renewal = λ l. l; by_renewal-perm = λ l. Permᴰ.refl l }

abbrev one_text : ℕ → String
one_text n = "n"

abbrev stopped_member : Store
stopped_member = record one_member { subscriptions = stopped 100 (joined 1) ∷ [] }

stopped_at_100 :
    cancel_auto_renew sample_settings 7 1 100 one_member
    ≡ (ok (auto_renew_of (stopped 100 (joined 1))), stopped_member)
unfolding cancel_auto_renew find_mine update_subscription ◌+ℤ◌ ◌-ℤ◌
stopped_at_100 = refl

cancel_auto_renew-runs_on_example :
    (any
        (has_running_plan 7)
        (after_runs sample_db sample_settings one_text any_order
          ((3, 10_000_000_000, 10_000_000_000) ∷ (3, 20_000_000_000, 20_000_000_000) ∷ [])
          stopped_member).subscriptions
      ≡ true)
    × ((episode movie : ℕ)
        → is_owned episode movie 7 (
            after_runs sample_db sample_settings one_text any_order
              ((3, 10_000_000_000, 10_000_000_000) ∷ (3, 20_000_000_000, 20_000_000_000) ∷ [])
              stopped_member)
          ≡ true)
cancel_auto_renew-runs_on_example =
    cancel_auto_renew-runs_on sample_db sample_settings one_text any_order 7 1 100 one_member
      (auto_renew_of (stopped 100 (joined 1))) stopped_member
      ((3, 10_000_000_000, 10_000_000_000) ∷ (3, 20_000_000_000, 20_000_000_000) ∷ []) (tt, tt)
      stopped_at_100 (inl refl)

abbrev members : ℕ → List Subscription
members zero = []
members (suc n) = joined (suc n) ∷ members n

members-above : (m n : ℕ) → n < m → All (λ p. m ≢ p.id) (members n)
members-above m zero h = tt
members-above m (suc n) h = (ground arith, members-above m n (omega arith))

members-IsUnique : (n : ℕ) → IsUnique (members n)
members-IsUnique zero = tt
members-IsUnique (suc n) = (members-above (suc n) n (omega arith), members-IsUnique n)

abbrev many_members : Store
many_members = record one_member { subscriptions = members 50; plans = weekly false ∷ [] }

members-IsOffSale :
    (n : ℕ) → All (IsOffSale many_members) (keep (is_renewal_due 10_000_000_000) (members n))
members-IsOffSale zero = tt
members-IsOffSale (suc n) = (refl, members-IsOffSale n)

renew_pass-endless_example :
    renew_pass sample_db sample_settings one_text any_order 9 10_000_000_000 10_000_000_000
      many_members
    ≡ (ok none, many_members)
renew_pass-endless_example =
    renew_pass-endless sample_db sample_settings one_text any_order 10_000_000_000 10_000_000_000 9
      many_members (members-IsUnique 50) (members-IsOffSale 50) (omega arith)

abbrev view_after : Result (PlanView × Store) → PlanView
view_after (ok r) = r.0
view_after (err e) = view_of (weekly true) none

abbrev store_after : Result (PlanView × Store) → Store
store_after (ok r) = r.1
store_after (err e) = one_member

abbrev repriced : ℕ → Result (PlanView × Store)
repriced from = set_price sample_db 1 (pos 30) from 9 500 one_member

one_member-IsSinglePrice : IsSinglePrice 1 500 one_member
unfolding current_price newest_price
one_member-IsSinglePrice = ((λ t. refl), tt)

repriced_at_400 : repriced 400 ≡ ok (view_after (repriced 400), store_after (repriced 400))
unfolding set_price open_price current_price newest_price view_of
repriced_at_400 = refl

set_price-current_example :
    IsSinglePrice 1 500 (store_after (repriced 400))
    × (row : MembershipPlanPrice) × (current_price 1 500 (store_after (repriced 400)) ≡ some row)
    × (row.price_coins ≡ pos 30)
set_price-current_example =
    set_price-current sample_db 1 (pos 30) 400 9 500 one_member (view_after (repriced 400))
      (store_after (repriced 400)) repriced_at_400 (tt, tt) one_member-IsSinglePrice (omega arith)

abbrev renewal : Result (RenewalOutcome × Store)
renewal = renew sample_db sample_settings one_text 1 604_800_000 604_800_000 one_member

abbrev outcome_of : Result (RenewalOutcome × Store) → RenewalOutcome
outcome_of (ok r) = r.0
outcome_of (err e) = nothing_done none

abbrev store_of : Result (RenewalOutcome × Store) → Store
store_of (ok r) = r.1
store_of (err e) = one_member

renewal_done : renewal ≡ ok (outcome_of renewal, store_of renewal)
unfolding renew renew_if renew_on charge_cycle wallet_of or_new wallet_of_user tried spend
    unless_replayed replayed find_by_key debit charge_of current_price newest_price locked pay_from
    min_ℤ neg ◌+ℤ◌ ◌-ℤ◌ create_cycle update_subscription after_payment mark_past_due move_on
    bump_wallet consume_lots create_entries create_entry spendable_lots take_lots bonus_after_debits
    debit_row first_id lot_rows movement_of write_entries
renewal_done = refl

renew-IsOutcome_example :
    IsOutcome sample_db sample_settings one_text 604_800_000 604_800_000 one_member
      (joined 1)
      (outcome_of renewal)
      (store_of renewal)
renew-IsOutcome_example =
    renew-IsOutcome sample_db sample_settings one_text 604_800_000 604_800_000 one_member (joined 1)
      (outcome_of renewal) (store_of renewal) refl renewal_done
