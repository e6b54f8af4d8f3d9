-- ===== src/Membership/Renewal.antt =====
-- subscription-renewal.service.ts: one renewal of a subscription. Notifications are left out.
use Prim.Native.String.{◌++◌}
use ai_cinema_be.Common.{
  ℕ, Bool, true, false, ◌+◌, ◌*◌, Option, none, some, String, if◌then◌else◌, leb,
}
use ai_cinema_be.Common.Int.{ℤ, pos}
use ai_cinema_be.Common.Table.{find_row}
use ai_cinema_be.Common.Transaction.{Tx, Result, ok, err, pure, gets, ◌>>=◌, ◌>>◌}
use ai_cinema_be.Common.Errors.{Error, unique_violation}
use ai_cinema_be.Settings.{PlatformSetting}
use ai_cinema_be.Wallet.Rows.{
  Database, CoinEntryType, CoinMovement, SpendRequest, subscription_cycle,
}
use ai_cinema_be.Wallet.Spend.{spend}
use ai_cinema_be.Wallet.Members.{wallet_of}
use ai_cinema_be.Access.Rows.{
  Store, Subscription, SubscriptionStatus, CycleStatus, MembershipPlan, MembershipPlanPrice,
  on_ledger, subscription_renewed, subscription_has_id, plan_has_id,
}
use ai_cinema_be.Membership.Plans.{current_price, record_event}
use ai_cinema_be.Membership.Joining.{
  create_cycle, update_subscription, window_end_of, day_ms, hour_ms,
}

pub record RenewalOutcome : Type 0 where
  pub renewed : Bool
  pub expired : Bool
  pub cycle_number : Option ℕ

abbrev pub nothing_done : Option ℕ → RenewalOutcome
nothing_done n = record { renewed = false; expired = false; cycle_number = n }

abbrev pub is_active : SubscriptionStatus → Bool
is_active SubscriptionStatus.active = true
is_active _ = false

abbrev pub if_renewing : Option Subscription → Option Subscription
if_renewing none = none
if_renewing (some p) = if is_active p.status then (if p.auto_renew then some p else none) else none

abbrev pub if_on_sale : Option MembershipPlan → Option MembershipPlan
if_on_sale none = none
if_on_sale (some plan) = if plan.is_active then some plan else none

-- `(await currentPrice(…)) ?? { priceCoins: subscription.priceCoins }`
abbrev pub price_or : Option MembershipPlanPrice → ℤ → ℤ
price_or none d = d
price_or (some p) d = p.price_coins

-- `sub:${subscription.id}:cycle:${cycleNumber}`; the texts of the two numbers are a parameter.
abbrev pub cycle_key : (ℕ → String) → ℕ → ℕ → String
cycle_key text_of_number id n = "sub:" ++ text_of_number id ++ ":cycle:" ++ text_of_number n

abbrev pub renewal_of : ℤ → String → SpendRequest
renewal_of price key = record {
  entry_type = CoinEntryType.plan_renewal;
  amount_coins = price;
  coin_rate_vnd = none;
  reference_type = some subscription_cycle;
  reference_id = none;
  idempotency_key = some key;
}

-- `Math.max(1, planRenewalGraceHours)`
abbrev pub at_least_one : ℕ → ℕ
at_least_one n = if leb 1 n then n else 1

abbrev pub past_due_until : ℕ → Subscription → Subscription
past_due_until retry_at p = record p {
  status = SubscriptionStatus.past_due;
  next_renewal_at = some retry_at;
}

abbrev pub moved_on : ℤ → ℕ → ℕ → ℕ → Subscription → Subscription → Subscription
moved_on price period_end hours now before p = record p {
  status = SubscriptionStatus.active;
  price_coins = price;
  current_period_start = before.current_period_end;
  current_period_end = period_end;
  next_renewal_at = some period_end;
  cancel_window_ends_at = some (window_end_of period_end hours);
  renewals_completed = before.renewals_completed + 1;
  last_renewed_at = some now;
}

-- A statement that the database itself refused.
abbrev pub is_refused : Error → Bool
is_refused unique_violation = true
is_refused _ = false

-- `try { … } catch`: the error as a value. A statement that was refused spoils the whole transaction, so
-- that the next one throws.
unfoldable pub tried : {A : Type 0} → Result (A × Store) → Store → Result (Result A × Store)
tried (ok r) st = ok (ok r.0, r.1)
tried (err e) st = if is_refused e then err e else ok (err e, st)

-- What one renewal charges, and for which period.
pub record Charge : Type 0 where
  pub price : ℤ
  pub cycle_number : ℕ
  pub period_end : ℕ

-- The figures of `renew` before the wallet is asked.
unfoldable pub charge_of : Subscription → MembershipPlan → ℕ → Store → Charge
charge_of p plan now st = record {
  price = price_or (current_price plan.id now st) p.price_coins;
  cycle_number = p.renewals_completed + 2;
  period_end = p.current_period_end + plan.duration_days * day_ms;
}

-- `clock` is the instant of `Date.now()`, `now` the one that the sweep was started with.
module _ (db : Database) (s : PlatformSetting) (text_of_number : ℕ → String) where
  -- `markPastDue`
  unfoldable pub mark_past_due : Subscription → Charge → Error → ℕ → Tx Store RenewalOutcome
  mark_past_due p c cause clock = do
    let retry_at = clock + at_least_one s.plan_renewal_grace_hours * hour_ms
    cycle ← create_cycle db (record {
      id = 0;
      subscription_id = p.id;
      cycle_number = c.cycle_number;
      period_start = p.current_period_end;
      period_end = c.period_end;
      price_coins = c.price;
      status = CycleStatus.failed;
      main_coins_charged = pos 0;
      bonus_coins_charged = pos 0;
      coin_transaction_id = none;
      failure_reason = some cause;
    })
    updated ← update_subscription p.id (past_due_until retry_at)
    pure (nothing_done (some c.cycle_number))

  -- The Coins were taken: the paid cycle, and the next period.
  unfoldable pub move_on : Subscription → Charge → CoinMovement → ℕ → Tx Store RenewalOutcome
  move_on p c movement now = do
    cycle ← create_cycle db (record {
      id = 0;
      subscription_id = p.id;
      cycle_number = c.cycle_number;
      period_start = p.current_period_end;
      period_end = c.period_end;
      price_coins = c.price;
      status = CycleStatus.paid;
      main_coins_charged = movement.main_coins;
      bonus_coins_charged = movement.bonus_coins;
      coin_transaction_id = some movement.transaction_id;
      failure_reason = none;
    })
    updated ←
        update_subscription p.id
          (moved_on c.price c.period_end s.subscription_cancel_window_hours now p)
    record_event subscription_renewed p.id none
    pure (record { renewed = true; expired = false; cycle_number = some c.cycle_number })

  unfoldable pub after_payment :
      Subscription → Charge → Result CoinMovement → ℕ → ℕ → Tx Store RenewalOutcome
  after_payment p c (ok movement) now clock = move_on p c movement now
  after_payment p c (err cause) now clock = mark_past_due p c cause clock

  unfoldable pub charge_cycle : Subscription → MembershipPlan → ℕ → ℕ → Tx Store RenewalOutcome
  charge_cycle p plan now clock = do
    c ← gets (charge_of p plan now)
    wallet ← on_ledger (wallet_of db s p.user_id)
    movement ← (λ (st : Store).
        tried
          (on_ledger
            (spend db s wallet.id
              (renewal_of c.price (cycle_key text_of_number p.id c.cycle_number)) now)
            st)
          st)
    after_payment p c movement now clock

  unfoldable pub renew_on : Subscription → Option MembershipPlan → ℕ → ℕ → Tx Store RenewalOutcome
  renew_on p none now clock = pure (nothing_done none)
  renew_on p (some plan) now clock = charge_cycle p plan now clock

  unfoldable pub renew_if : Option Subscription → ℕ → ℕ → Tx Store RenewalOutcome
  renew_if none now clock = pure (nothing_done none)
  renew_if (some p) now clock = do
    plan ← gets (λ st. if_on_sale (find_row p.plan_id st.plans))
    renew_on p plan now clock

  -- `renew`
  unfoldable pub renew : ℕ → ℕ → ℕ → Tx Store RenewalOutcome
  renew id now clock = do
    found ← gets (λ st. if_renewing (find_row id st.subscriptions))
    renew_if found now clock
