-- ===== src/Membership/Renewable.antt =====
-- When a subscription is renewed, at which price, and how long a failed renewal waits
-- (subscription-renewal.service.ts).
use ai_cinema_be.Membership.Sweep.Rows.{guarded}
use ai_cinema_be.Common.{
  subst, ℕ, true, Option, none, some, String, ◌≡◌, refl, sym, inl, inr, ◌⊎◌, Bool, Bool-cases,
  false, leb, arith, ◌≢◌, if◌then◌else◌,
}
use ai_cinema_be.Membership.Renewed.{
  price_in_force, IsIdle, not_active, renewal_off, no_plan, off_sale, IsPrice, as_before, IsGrace,
  set, at_least,
}
use ai_cinema_be.Common.Table.{find_row, some_eq}
use ai_cinema_be.Access.Rows.{
  SubscriptionStatus, MembershipPlanPrice, Store, Subscription, MembershipPlan, subscription_has_id,
  plan_has_id,
}
use ai_cinema_be.Membership.Plans.{current_price}
use ai_cinema_be.Membership.Renewal.{is_active, price_or, at_least_one, if_renewing, if_on_sale}
use ai_cinema_be.Settings.{PlatformSetting}
use ai_cinema_be.Wallet.Rows.{Database}

idle_why :
    (t : SubscriptionStatus) (o : Bool) (p : Subscription)
    → (if is_active t then (if o then some p else none) else none) ≡ none
    → (t ≢ SubscriptionStatus.active) ⊎ (o ≡ false)
idle_why SubscriptionStatus.active true p h = cc
idle_why t false p h = inr refl
idle_why SubscriptionStatus.pending o p h = inl (λ e. cc)
idle_why SubscriptionStatus.past_due o p h = inl (λ e. cc)
idle_why SubscriptionStatus.cancelled o p h = inl (λ e. cc)
idle_why SubscriptionStatus.expired o p h = inl (λ e. cc)

active_status : (t : SubscriptionStatus) → is_active t ≡ true → t ≡ SubscriptionStatus.active
active_status SubscriptionStatus.active h = refl
active_status t h = cc

pub sold :
    (o : Option MembershipPlan) (plan : MembershipPlan)
    → if_on_sale o ≡ some plan
    → (o ≡ some plan) × (plan.is_active ≡ true)
sold none plan h = cc
sold (some q) plan h =
    let (t, e) = guarded q.is_active (some q) plan h in
    (e, subst (λ (x : MembershipPlan). x.is_active ≡ true) (some_eq e) t)

module _ (db : Database) (s : PlatformSetting) (text_of_number : ℕ → String) (now clock : ℕ)
    (st : Store) (p : Subscription) where
  pub unsold :
      (o : Option MembershipPlan)
      → find_row p.plan_id st.plans ≡ o
      → if_on_sale o ≡ none
      → IsIdle db s text_of_number now clock st p
  unsold none e h = no_plan e
  unsold (some plan) e h = elim (Bool-cases plan.is_active) [
    | inl t ↦ cc (rw t at h)
    | inr t ↦ off_sale plan e t
  ]

  pub price_or-IsPrice :
      (plan : MembershipPlan) (o : Option MembershipPlanPrice)
      → current_price plan.id now st ≡ o
      → IsPrice db s text_of_number now clock st p plan (price_or o p.price_coins)
  price_or-IsPrice plan none e = as_before e
  price_or-IsPrice plan (some q) e = price_in_force q e

  pub grace : IsGrace db s text_of_number now clock st p (at_least_one s.plan_renewal_grace_hours)
  grace = elim (Bool-cases (leb 1 s.plan_renewal_grace_hours)) [
    | inl t ↦ rw t (set (ground arith))
    | inr t ↦ rw t (at_least (ground arith))
  ]

  pub renewing_as :
      (q : Subscription)
      → if_renewing (some p) ≡ some q
      → (p.status ≡ SubscriptionStatus.active) × (p.auto_renew ≡ true) × (q ≡ p)
  renewing_as q e =
      let (t, h) = guarded (is_active p.status) (if p.auto_renew then some p else none) q e in
      let (on, same) = guarded p.auto_renew (some p) q h in
      (active_status p.status t, on, sym (some_eq same))

  pub idle_reason : if_renewing (some p) ≡ none → IsIdle db s text_of_number now clock st p
  idle_reason e = elim (idle_why p.status p.auto_renew p e) [
    | inl h ↦ not_active h
    | inr h ↦ renewal_off h
  ]
