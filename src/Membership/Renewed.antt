-- ===== src/Membership/Renewed.antt =====
-- What a renewal of a subscription may do, told without the functions that do it
-- (subscription-renewal.service.ts).
use Prim.Native.String.{◌++◌}
use ai_cinema_be.Common.{ℕ, true, false, ◌+◌, ◌*◌, ◌≤◌, none, some, String, ◌∷◌, ◌≡◌, ◌≢◌}
use ai_cinema_be.Common.Int.{ℤ, pos, ◌-ℤ◌}
use ai_cinema_be.Common.Table.{find_row}
use ai_cinema_be.Common.Transaction.{ok, err}
use ai_cinema_be.Common.Errors.{Error}
use ai_cinema_be.Settings.{PlatformSetting}
use ai_cinema_be.Wallet.Rows.{
  Database, Ledger, CoinMovement, CoinWallet, CoinEntryType, SpendRequest, subscription_cycle,
}
use ai_cinema_be.Wallet.Spend.{spend}
use ai_cinema_be.Wallet.Members.{wallet_of}
use ai_cinema_be.Access.Rows.{
  Store, Subscription, SubscriptionStatus, SubscriptionCycle, CycleStatus, MembershipPlan,
  MembershipPlanPrice, subscription_has_id, plan_has_id,
}
use ai_cinema_be.Membership.Plans.{current_price}
use ai_cinema_be.Membership.Renewal.{RenewalOutcome}

module _ (db : Database) (s : PlatformSetting) (text_of_number : ℕ → String) (now clock : ℕ)
    (st : Store) (p : Subscription) where
  -- Why a subscription is not renewed.
  pub data IsIdle : Type 0 where
    not_active : p.status ≢ SubscriptionStatus.active → IsIdle
    renewal_off : p.auto_renew ≡ false → IsIdle
    no_plan : find_row p.plan_id st.plans ≡ none → IsIdle
    off_sale :
        (plan : MembershipPlan)
        → find_row p.plan_id st.plans ≡ some plan
        → plan.is_active ≡ false
        → IsIdle

  -- The subscription's own plan, where it is to be renewed.
  pub record IsRenewable (plan : MembershipPlan) : Type 0 where
    pub active : p.status ≡ SubscriptionStatus.active
    pub renewing : p.auto_renew ≡ true
    pub own_plan : find_row p.plan_id st.plans ≡ some plan
    pub on_sale : plan.is_active ≡ true

  -- The price of the next cycle: the plan's price in force, or else what the member paid last.
  pub data IsPrice (plan : MembershipPlan) : ℤ → Type 0 where
    price_in_force :
        (q : MembershipPlanPrice)
        → current_price plan.id now st ≡ some q
        → IsPrice plan q.price_coins
    as_before : current_price plan.id now st ≡ none → IsPrice plan p.price_coins

  -- The hours until the next attempt: those of the settings, and at least one.
  pub data IsGrace : ℕ → Type 0 where
    set : 1 ≤ s.plan_renewal_grace_hours → IsGrace s.plan_renewal_grace_hours
    at_least : s.plan_renewal_grace_hours ≡ 0 → IsGrace 1

  -- What the wallet is asked to pay: the key names the subscription and the cycle.
  abbrev pub request_for : ℤ → SpendRequest
  request_for price = record {
    entry_type = CoinEntryType.plan_renewal;
    amount_coins = price;
    coin_rate_vnd = none;
    reference_type = some subscription_cycle;
    reference_id = none;
    idempotency_key =
        some
          ("sub:" ++ text_of_number p.id ++ ":cycle:" ++ text_of_number (p.renewals_completed + 2));
  }

  -- The cycle follows the current period, for the days of the plan.
  abbrev pub cycle_of : MembershipPlan → ℤ → ℕ → SubscriptionCycle
  cycle_of plan price id = record {
    id = id;
    subscription_id = p.id;
    cycle_number = p.renewals_completed + 2;
    period_start = p.current_period_end;
    period_end = p.current_period_end + plan.duration_days * 86_400_000;
    price_coins = price;
    status = CycleStatus.failed;
    main_coins_charged = pos 0;
    bonus_coins_charged = pos 0;
    coin_transaction_id = none;
    failure_reason = none;
  }

  -- What a renewal of `p` did.
  pub data IsOutcome (r : RenewalOutcome) (after : Store) : Type 0 where
    idle :
        IsIdle
        → r ≡ record { renewed = false; expired = false; cycle_number = none }
        → after ≡ st
        → IsOutcome r after
    -- The payment failed and moved no Coins.
    unpaid :
        (plan : MembershipPlan) (price : ℤ) (wallet : CoinWallet) (l : Ledger) (cause : Error)
        (cycle_id hours : ℕ)
        → IsRenewable plan
        → IsPrice plan price
        → IsGrace hours
        → wallet_of db s p.user_id st.ledger ≡ ok (wallet, l)
        → spend db s wallet.id (request_for price) now l ≡ err cause
        → r ≡ record {
          renewed = false;
          expired = false;
          cycle_number = some (p.renewals_completed + 2);
        }
        → after.ledger ≡ l
        → after.cycles
          ≡ record (cycle_of plan price cycle_id) { failure_reason = some cause } ∷ st.cycles
        → find_row p.id after.subscriptions
          ≡ some (record p {
            status = SubscriptionStatus.past_due;
            next_renewal_at = some (clock + hours * 3_600_000);
          })
        → IsOutcome r after
    -- The wallet paid the price.
    paid :
        (plan : MembershipPlan) (price : ℤ) (wallet : CoinWallet) (l : Ledger)
        (movement : CoinMovement) (cycle_id : ℕ)
        → IsRenewable plan
        → IsPrice plan price
        → wallet_of db s p.user_id st.ledger ≡ ok (wallet, l)
        → spend db s wallet.id (request_for price) now l ≡ ok (movement, after.ledger)
        → r ≡ record {
          renewed = true;
          expired = false;
          cycle_number = some (p.renewals_completed + 2);
        }
        → after.cycles
          ≡ record (cycle_of plan price cycle_id) {
            status = CycleStatus.paid;
            main_coins_charged = movement.main_coins;
            bonus_coins_charged = movement.bonus_coins;
            coin_transaction_id = some movement.transaction_id;
          }
            ∷ st.cycles
        → find_row p.id after.subscriptions
          ≡ some (record p {
            status = SubscriptionStatus.active;
            price_coins = price;
            current_period_start = p.current_period_end;
            current_period_end = p.current_period_end + plan.duration_days * 86_400_000;
            next_renewal_at = some (p.current_period_end + plan.duration_days * 86_400_000);
            cancel_window_ends_at = some (
                pos (p.current_period_end + plan.duration_days * 86_400_000)
                -ℤ pos (s.subscription_cancel_window_hours * 3_600_000));
            renewals_completed = p.renewals_completed + 1;
            last_renewed_at = some now;
          })
        → IsOutcome r after
