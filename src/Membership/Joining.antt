-- ===== src/Membership/Joining.antt =====
-- subscription.service.ts: quoting a plan, paying for it and starting the period. Notifications are
-- left out.
use ai_cinema_be.Common.{
  ℕ, Bool, true, false, not, ◌&&◌, ◌||◌, ◌+◌, ◌*◌, Option, none, some, ◌∷◌, String, map, ◌==◌,
  if◌then◌else◌,
}
use ai_cinema_be.Common.Int.{ℤ, pos, ◌-ℤ◌}
use ai_cinema_be.Common.Lists.{any}
use ai_cinema_be.Common.Table.{find_row, update_row}
use ai_cinema_be.Common.Transaction.{Tx, pure, gets, modify, require, or_throw, ◌>>=◌, ◌>>◌}
use ai_cinema_be.Common.Errors.{
  not_found, unprocessable, conflict, plan_not_found, plan_not_active, subscription_exists,
  record_not_found, unique_violation,
}
use ai_cinema_be.Settings.{PlatformSetting}
use ai_cinema_be.Wallet.Rows.{Database, CoinWallet, CoinEntryType, SpendRequest, subscription_cycle}
use ai_cinema_be.Wallet.Spend.{spend}
use ai_cinema_be.Wallet.Members.{affordability, CoinSplit}
use ai_cinema_be.Access.Rows.{
  Store, Subscription, SubscriptionStatus, SubscriptionCycle, CycleStatus, on_ledger,
  subscription_activated, subscription_has_id, plan_has_id,
}
use ai_cinema_be.Access.Episodes.{paid_by}
use ai_cinema_be.Membership.Plans.{purchasable_plan, record_event}

-- `DAY_MS`
abbrev pub day_ms : ℕ
day_ms = 86_400_000

abbrev pub hour_ms : ℕ
hour_ms = 3_600_000

-- `windowEndOf`
abbrev pub window_end_of : ℕ → ℕ → ℤ
window_end_of renewal_at hours = pos renewal_at -ℤ pos (hours * hour_ms)

abbrev pub is_pending : SubscriptionStatus → Bool
is_pending SubscriptionStatus.pending = true
is_pending _ = false

-- `OPEN`
abbrev pub is_open_plan : SubscriptionStatus → Bool
is_open_plan SubscriptionStatus.active = true
is_open_plan SubscriptionStatus.past_due = true
is_open_plan SubscriptionStatus.pending = true
is_open_plan _ = false

abbrev pub has_open_plan : ℕ → Subscription → Bool
has_open_plan user p = p.user_id == user && is_open_plan p.status

abbrev pub if_owned : ℕ → Option Subscription → Option Subscription
if_owned user none = none
if_owned user (some p) = if p.user_id == user then some p else none

-- The read of `findMine`.
unfoldable pub find_mine : ℕ → ℕ → Store → Option Subscription
find_mine user id st = if_owned user (find_row id st.subscriptions)

-- `subscription.update`, which answers with the new row.
unfoldable pub update_subscription : ℕ → (Subscription → Subscription) → Tx Store Subscription
update_subscription id f = do
  found ← gets (λ st. find_row id st.subscriptions)
  before ← or_throw found record_not_found
  modify (λ st. record st { subscriptions = update_row id f st.subscriptions })
  pure (f before)

-- The answer of `subscribe`.
pub record Quote : Type 0 where
  pub subscription : Subscription
  pub plan_code : String
  pub main_balance : ℤ
  pub bonus_balance : ℤ
  pub enough_coins : Bool
  pub missing_coins : ℤ
  pub cancel_deadline : ℤ

-- The answer of `activate`.
pub record Activation : Type 0 where
  pub subscription : Subscription
  pub charged : CoinSplit
  pub main_balance : ℤ
  pub bonus_balance : ℤ
  pub cycle_number : ℕ
  pub episode_access_granted : Bool

-- A cycle shares neither its number nor its ledger entry with another one.
abbrev pub collides : SubscriptionCycle → SubscriptionCycle → Bool
collides c d =
    d.subscription_id == c.subscription_id && d.cycle_number == c.cycle_number
    || shares c.coin_transaction_id d.coin_transaction_id
  where
    shares : Option ℕ → Option ℕ → Bool
    shares none t = false
    shares (some i) t = paid_by i t

abbrev pub payment_of : Subscription → Option String → SpendRequest
payment_of intent key = record {
  entry_type = CoinEntryType.plan_payment;
  amount_coins = intent.price_coins;
  coin_rate_vnd = none;
  reference_type = some subscription_cycle;
  reference_id = none;
  idempotency_key = key;
}

-- The `data` of the update that starts the period.
abbrev pub started : ℤ → ℕ → ℕ → ℕ → Subscription → Subscription
started price now period_end hours p = record p {
  status = SubscriptionStatus.active;
  auto_renew = true;
  price_coins = price;
  current_period_start = now;
  current_period_end = period_end;
  next_renewal_at = some period_end;
  cancel_window_ends_at = some (window_end_of period_end hours);
}

module _ (db : Database) where
  -- `subscriptionCycle.create`; the id of the given row is not looked at.
  unfoldable pub create_cycle : SubscriptionCycle → Tx Store SubscriptionCycle
  create_cycle c = do
    taken ← gets (λ st. any (collides c) st.cycles)
    require (not taken) unique_violation
    id ← gets (λ st. db.fresh_id (map (λ (d : SubscriptionCycle). d.id) st.cycles))
    let row : SubscriptionCycle = record c { id = id }
    modify (λ st. record st { cycles = row ∷ st.cycles })
    pure row

  module _ (s : PlatformSetting) where
    -- `subscribe`. The quote opens a wallet on a connection of its own; nothing throws after it.
    unfoldable pub subscribe : ℕ → ℕ → ℕ → Tx Store Quote
    subscribe user plan_id now = do
      found ← purchasable_plan plan_id now
      joined ← gets (λ st. any (has_open_plan user) st.subscriptions)
      require (not joined) (conflict subscription_exists)
      let period_end = now + found.0.duration_days * day_ms
      let deadline = window_end_of period_end s.subscription_cancel_window_hours
      quote ← on_ledger (affordability db s user found.1.price_coins now)
      id ← gets (λ st. db.fresh_id (map (λ (p : Subscription). p.id) st.subscriptions))
      let p : Subscription = record {
        id = id;
        user_id = user;
        plan_id = found.0.id;
        status = SubscriptionStatus.pending;
        auto_renew = true;
        price_coins = found.1.price_coins;
        started_at = now;
        current_period_start = now;
        current_period_end = period_end;
        next_renewal_at = some period_end;
        cancel_requested_at = none;
        cancel_window_ends_at = some deadline;
        cancelled_at = none;
        ended_at = none;
        end_reason = none;
        renewals_completed = 0;
        last_renewed_at = none;
      }
      modify (λ st. record st { subscriptions = p ∷ st.subscriptions })
      pure (record {
        subscription = p;
        plan_code = found.0.code;
        main_balance = quote.main_balance;
        bonus_balance = quote.bonus_balance;
        enough_coins = quote.enough_coins;
        missing_coins = quote.missing_coins;
        cancel_deadline = deadline;
      })

    -- The transaction of `activate`.
    unfoldable pub start_period :
        Subscription → CoinWallet → ℕ → Option String → ℕ → Tx Store Activation
    start_period intent wallet user key now = do
      found ← gets (λ st. find_row intent.plan_id st.plans)
      plan ← or_throw found (not_found plan_not_found)
      require plan.is_active (unprocessable plan_not_active)
      let period_end = now + plan.duration_days * day_ms
      movement ← on_ledger (spend db s wallet.id (payment_of intent key) now)
      p ←
          update_subscription intent.id
            (started intent.price_coins now period_end s.subscription_cancel_window_hours)
      cycle ← create_cycle (record {
        id = 0;
        subscription_id = p.id;
        cycle_number = 1;
        period_start = now;
        period_end = period_end;
        price_coins = intent.price_coins;
        status = CycleStatus.paid;
        main_coins_charged = movement.main_coins;
        bonus_coins_charged = movement.bonus_coins;
        coin_transaction_id = some movement.transaction_id;
        failure_reason = none;
      })
      record_event subscription_activated p.id (some user)
      pure (record {
        subscription = p;
        charged = record { main_coins = movement.main_coins; bonus_coins = movement.bonus_coins };
        main_balance = movement.main_balance;
        bonus_balance = movement.bonus_balance;
        cycle_number = cycle.cycle_number;
        episode_access_granted = true;
      })
