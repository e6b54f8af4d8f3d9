-- ===== src/Membership/Outcome.antt =====
-- What one renewal does to its subscription, to the ledger and to the cycles.
use ai_cinema_be.Common.{
  List, ℕ, true, Option, Option-cases, none, some, String, ◌∷◌, ◌≡◌, refl, sym, ap, ◌∙◌, inl, inr,
}
use ai_cinema_be.Membership.Renewed.{IsOutcome, idle, paid, unpaid, IsRenewable}
use ai_cinema_be.Common.Table.{find_row}
use ai_cinema_be.Common.Transaction.{
  err, on_part_err, Result, ok, bind-eq-ok, ok_fst, ok_snd, on_part_ok,
}
use ai_cinema_be.Access.Rows.{
  SubscriptionStatus, Store, Subscription, SubscriptionCycle, MembershipPlan, on_ledger,
  subscription_has_id, plan_has_id,
}
use ai_cinema_be.Membership.Plans.{current_price}
use ai_cinema_be.Membership.Renewal.{
  RenewalOutcome, renewal_of, cycle_key, at_least_one, if_renewing, if_on_sale, tried, charge_of,
  mark_past_due, move_on, after_payment, charge_cycle, renew_on, renew_if, renew,
}
use ai_cinema_be.Common.Errors.{Error}
use ai_cinema_be.Settings.{PlatformSetting}
use ai_cinema_be.Wallet.Rows.{Database, Ledger, CoinMovement, CoinWallet, SpendRequest}
use ai_cinema_be.Wallet.Spend.{spend}
use ai_cinema_be.Wallet.Members.{wallet_of}
use ai_cinema_be.Membership.Recorded.{moved, fell_due, tried_cases}
use ai_cinema_be.Membership.Renewable.{
  grace, renewing_as, sold, price_or-IsPrice, unsold, idle_reason,
}

under : {c : SubscriptionCycle} {xs ys : List SubscriptionCycle} → xs ≡ ys → (c ∷ xs) ≡ (c ∷ ys)
under {c = c} e = ap (λ xs. c ∷ xs) e

module _ (db : Database) (s : PlatformSetting) (text_of_number : ℕ → String) (now clock : ℕ)
    (st : Store) (p : Subscription) where
  abbrev Done : RenewalOutcome → Store → Type 0
  Done = IsOutcome db s text_of_number now clock st p

  abbrev Renewable : MembershipPlan → Type 0
  Renewable = IsRenewable db s text_of_number now clock st p

  abbrev request_of : MembershipPlan → SpendRequest
  request_of plan =
      renewal_of (charge_of p plan now st).price
        (cycle_key text_of_number p.id (charge_of p plan now st).cycle_number)

  abbrev with_ledger : Ledger → Store → Store
  with_ledger l x = record x { ledger = l }

  paid-IsOutcome :
      (plan : MembershipPlan) (wallet : CoinWallet) (l : Ledger) (movement : CoinMovement)
      (st₁ st₂ : Store) (r : RenewalOutcome) (after : Store)
      → Renewable plan
      → find_row p.id st.subscriptions ≡ some p
      → wallet_of db s p.user_id st.ledger ≡ ok (wallet, l)
      → st₁ ≡ with_ledger l st
      → on_ledger (spend db s wallet.id (request_of plan) now) st₁ ≡ ok (movement, st₂)
      → move_on db s text_of_number p (charge_of p plan now st) movement now st₂ ≡ ok (r, after)
      → Done r after
  unfolding charge_of
  paid-IsOutcome plan wallet l movement st₁ st₂ r after go here walleted eq₁ spent h =
      let (l₂, charged, eq₂) =
        on_part_ok (λ (x : Store). x.ledger) with_ledger
          (spend db s wallet.id (request_of plan) now) st₁ spent in
      let unmoved : find_row p.id st₂.subscriptions ≡ some p =
        ap (λ (x : Store). find_row p.id x.subscriptions) eq₂
        ∙ ap (λ (x : Store). find_row p.id x.subscriptions) eq₁
        ∙ here in
      let (id, told, ledger, grown, row) =
        moved db s text_of_number now clock p (charge_of p plan now st) movement st₂ r after unmoved
          h in
      paid plan (charge_of p plan now st).price wallet l movement id go
        (price_or-IsPrice db s text_of_number now clock st p plan (current_price plan.id now st)
          refl)
        walleted
        (ap (spend db s wallet.id (request_of plan) now) (sym (ap (λ (x : Store). x.ledger) eq₁))
          ∙ charged
          ∙ ap (λ x. ok (movement, x)) (sym (ledger ∙ ap (λ (x : Store). x.ledger) eq₂)))
        told
        (grown
          ∙ under (ap (λ (x : Store). x.cycles) eq₂)
          ∙ under (ap (λ (x : Store). x.cycles) eq₁))
        row

  unpaid-IsOutcome :
      (plan : MembershipPlan) (wallet : CoinWallet) (l : Ledger) (cause : Error) (st₁ : Store)
      (r : RenewalOutcome) (after : Store)
      → Renewable plan
      → find_row p.id st.subscriptions ≡ some p
      → wallet_of db s p.user_id st.ledger ≡ ok (wallet, l)
      → st₁ ≡ with_ledger l st
      → on_ledger (spend db s wallet.id (request_of plan) now) st₁ ≡ err cause
      → mark_past_due db s text_of_number p (charge_of p plan now st) cause clock st₁
        ≡ ok (r, after)
      → Done r after
  unfolding charge_of
  unpaid-IsOutcome plan wallet l cause st₁ r after go here walleted eq₁ refused h =
      let (id, told, ledger, grown, row) =
        fell_due db s text_of_number now clock p (charge_of p plan now st) cause st₁ r after
          (ap (λ (x : Store). find_row p.id x.subscriptions) eq₁ ∙ here) h in
      unpaid plan (charge_of p plan now st).price wallet l cause id
        (at_least_one s.plan_renewal_grace_hours) go
        (price_or-IsPrice db s text_of_number now clock st p plan (current_price plan.id now st)
          refl)
        (grace db s text_of_number now clock st p) walleted
        (ap (spend db s wallet.id (request_of plan) now) (sym (ap (λ (x : Store). x.ledger) eq₁))
          ∙ on_part_err (λ (x : Store). x.ledger) with_ledger
              (spend db s wallet.id (request_of plan) now) st₁ refused)
        told (ledger ∙ ap (λ (x : Store). x.ledger) eq₁)
        (grown ∙ under (ap (λ (x : Store). x.cycles) eq₁)) row

  after-IsOutcome :
      (plan : MembershipPlan) (wallet : CoinWallet) (l : Ledger) (st₁ st₂ : Store)
      (res : Result CoinMovement) (r : RenewalOutcome) (after : Store)
      → Renewable plan
      → find_row p.id st.subscriptions ≡ some p
      → wallet_of db s p.user_id st.ledger ≡ ok (wallet, l)
      → st₁ ≡ with_ledger l st
      → tried (on_ledger (spend db s wallet.id (request_of plan) now) st₁) st₁ ≡ ok (res, st₂)
      → after_payment db s text_of_number p (charge_of p plan now st) res now clock st₂
        ≡ ok (r, after)
      → Done r after
  unfolding after_payment
  after-IsOutcome plan wallet l st₁ st₂ res r after go here walleted eq₁ attempted h =
      elim (tried_cases (on_ledger (spend db s wallet.id (request_of plan) now) st₁) st₁
        attempted) [
          | inl (movement, spent, e) ↦
              paid-IsOutcome plan wallet l movement st₁ st₂ r after go here walleted eq₁ spent (
                ap
                  (λ x.
                    after_payment db s text_of_number p (charge_of p plan now st) x now clock st₂)
                  (sym e)
                ∙ h)
          | inr (cause, refused, e, same) ↦
              unpaid-IsOutcome plan wallet l cause st₁ r after go here walleted eq₁ refused (
                ap
                  (λ x.
                    after_payment db s text_of_number p (charge_of p plan now st) x now clock st₁)
                  (sym e)
                ∙ ap (after_payment db s text_of_number p (charge_of p plan now st) res now clock)
                    (sym same)
                ∙ h)
        ]

  -- From the wallet on.
  charged-IsOutcome :
      (plan : MembershipPlan) (r : RenewalOutcome) (after : Store)
      → Renewable plan
      → find_row p.id st.subscriptions ≡ some p
      → charge_cycle db s text_of_number p plan now clock st ≡ ok (r, after)
      → Done r after
  unfolding charge_cycle
  charged-IsOutcome plan r after go here h =
      let (wallet, st₁, opened, h₁) = bind-eq-ok (on_ledger (wallet_of db s p.user_id) st) _ h in
      let (l, walleted, eq₁) =
        on_part_ok (λ (x : Store). x.ledger) with_ledger (wallet_of db s p.user_id) st opened in
      let (res, st₂, attempted, h₂) =
        bind-eq-ok (tried (on_ledger (spend db s wallet.id (request_of plan) now) st₁) st₁) _ h₁ in
      after-IsOutcome plan wallet l st₁ st₂ res r after go here walleted eq₁ attempted h₂

  on_sale-IsOutcome :
      (plan : Option MembershipPlan) (r : RenewalOutcome) (after : Store)
      → (p.status ≡ SubscriptionStatus.active) × (p.auto_renew ≡ true)
      → if_on_sale (find_row p.plan_id st.plans) ≡ plan
      → find_row p.id st.subscriptions ≡ some p
      → renew_on db s text_of_number p plan now clock st ≡ ok (r, after)
      → Done r after
  unfolding renew_on
  on_sale-IsOutcome none r after on e here h =
      idle (unsold db s text_of_number now clock st p (find_row p.plan_id st.plans) refl e)
        (sym (ok_fst h)) (sym (ok_snd h))
  on_sale-IsOutcome (some plan) r after on e here h =
      let (own, active) = sold (find_row p.plan_id st.plans) plan e in
      charged-IsOutcome plan r after
        (record { active = on.0; renewing = on.1; own_plan = own; on_sale = active }) here h

  -- A renewal of a subscription does one of three things. It does nothing at all, and only where the
  -- subscription is not ACTIVE, does not renew, or its plan is gone or off sale. Or the wallet refuses
  -- the payment: no Coins move, the failed cycle is on record with the cause, the subscription is
  -- PAST_DUE with the period it had, and the next attempt is the grace hours away, at least one. Or
  -- the wallet pays: the price is the one in force, or else the one paid last; the cycle is on record
  -- with what it took; and the period, the next renewal and the end of the cancel window move on by
  -- the days of the plan, from where the period ended.
  pub renew-IsOutcome :
      (r : RenewalOutcome) (after : Store)
      → find_row p.id st.subscriptions ≡ some p
      → renew db s text_of_number p.id now clock st ≡ ok (r, after)
      → IsOutcome db s text_of_number now clock st p r after
  unfolding renew renew_if
  renew-IsOutcome r after here h =
      let asked : renew_if db s text_of_number (if_renewing (some p)) now clock st ≡ ok (r, after) =
        ap (λ o. renew_if db s text_of_number (if_renewing o) now clock st) (sym here) ∙ h in
      elim (Option-cases (if_renewing (some p))) [
        | inl e ↦
            let told = ap (λ o. renew_if db s text_of_number o now clock st) (sym e) ∙ asked in
            idle (idle_reason db s text_of_number now clock st p e) (sym (ok_fst told))
              (sym (ok_snd told))
        | inr (q, e) ↦
            let (on, renewing, same) = renewing_as db s text_of_number now clock st p q e in
            let told : renew_if db s text_of_number (some p) now clock st ≡ ok (r, after) =
              ap (λ o. renew_if db s text_of_number o now clock st) (sym (e ∙ ap some same))
              ∙ asked in
            on_sale-IsOutcome (if_on_sale (find_row p.plan_id st.plans)) r after (on, renewing) refl
              here told
      ]
