-- ===== src/Membership/Recorded.antt =====
-- What the writes of a renewal leave: a new cycle, an updated subscription, an error that was caught.
use ai_cinema_be.Common.{
  ◌*◌, ◌+◌, none, false, true, String, ℕ, not, some, ◌∷◌, ◌≡◌, refl, sym, ap, ◌∙◌, inl, inr,
  Bool-cases, ◌⊎◌,
}
use ai_cinema_be.Common.Lists.{any}
use ai_cinema_be.Common.Table.{find_row, find_row-update_self}
use ai_cinema_be.Common.Transaction.{
  bind-eq-ok, Result, ok, err, ok_fst, ok_snd, bind-or_throw-eq-ok, bind-require-eq-ok,
}
use ai_cinema_be.Common.Errors.{Error, record_not_found, unique_violation}
use ai_cinema_be.Wallet.Rows.{CoinMovement, Database}
use ai_cinema_be.Access.Rows.{
  CycleStatus, Store, Subscription, SubscriptionCycle, subscription_has_id, plan_has_id,
}
use ai_cinema_be.Membership.Joining.{collides, create_cycle, update_subscription, hour_ms}
use ai_cinema_be.Membership.Renewal.{
  at_least_one, past_due_until, moved_on, nothing_done, RenewalOutcome, Charge, mark_past_due,
  move_on, is_refused, tried,
}
use ai_cinema_be.Settings.{PlatformSetting}
use ai_cinema_be.Common.Int.{pos}

-- A cycle that was put on record.
pub cycle_recorded :
    (db : Database) (c : SubscriptionCycle) (st : Store) {row : SubscriptionCycle} {after : Store}
    → create_cycle db c st ≡ ok (row, after)
    → (after.cycles ≡ row ∷ st.cycles)
      × (after.subscriptions ≡ st.subscriptions)
      × (after.ledger ≡ st.ledger)
      × (row ≡ record c { id = row.id })
unfolding create_cycle
cycle_recorded db c st h =
    let (free, h₁) =
      bind-require-eq-ok (not (any (collides c) st.cycles)) unique_violation st _ h in
    let same = sym (ok_snd h₁) in
    let made = sym (ok_fst h₁) in
    (
      ap (λ (x : Store). x.cycles) same ∙ ap (λ r. r ∷ st.cycles) (sym made),
      ap (λ (x : Store). x.subscriptions) same,
      ap (λ (x : Store). x.ledger) same,
      made ∙ ap (λ (r : SubscriptionCycle). record c { id = r.id }) (sym made),
    )

-- A subscription that was updated.
pub subscription_updated :
    (id : ℕ) (f : Subscription → Subscription) (st : Store) (p : Subscription) {q : Subscription}
    {after : Store}
    → ((x : Subscription) → (f x).id ≡ x.id)
    → find_row id st.subscriptions ≡ some p
    → update_subscription id f st ≡ ok (q, after)
    → (find_row id after.subscriptions ≡ some (f p))
      × (after.cycles ≡ st.cycles)
      × (after.ledger ≡ st.ledger)
unfolding update_subscription
subscription_updated id f st p same found h =
    let (before, there, h₁) =
      bind-or_throw-eq-ok (find_row id st.subscriptions) record_not_found st _ h in
    let wrote = sym (ok_snd h₁) in
    (
      ap (λ (x : Store). find_row id x.subscriptions) wrote
          ∙ find_row-update_self id f st.subscriptions p same found,
      ap (λ (x : Store). x.cycles) wrote,
      ap (λ (x : Store). x.ledger) wrote,
    )

pub tried_cases :
    {A : Type 0} (r : Result (A × Store)) (st : Store) {res : Result A} {after : Store}
    → tried r st ≡ ok (res, after)
    → ((a : A) × (r ≡ ok (a, after)) × (res ≡ ok a))
      ⊎ ((e : Error) × (r ≡ err e) × (res ≡ err e) × (after ≡ st))
unfolding tried
tried_cases (ok (a, x)) st h = inl (a, ap (λ y. ok (a, y)) (ok_snd h), sym (ok_fst h))
tried_cases (err e) st h = elim (Bool-cases (is_refused e)) [
  | inl t ↦ absurd (cc (rw t at h))
  | inr t ↦ inr (e, refl, sym (ok_fst (rw t at h)), sym (ok_snd (rw t at h)))
]

module _ (db : Database) (s : PlatformSetting) (text_of_number : ℕ → String) (now clock : ℕ)
    (p : Subscription) where
  pub moved :
      (c : Charge) (movement : CoinMovement) (before : Store) (r : RenewalOutcome) (after : Store)
      → find_row p.id before.subscriptions ≡ some p
      → move_on db s text_of_number p c movement now before ≡ ok (r, after)
      → (id : ℕ) × (r
          ≡ record { renewed = true; expired = false; cycle_number = some c.cycle_number })
        × (after.ledger ≡ before.ledger)
        × (after.cycles
            ≡ record {
              id = id;
              subscription_id = p.id;
              cycle_number = c.cycle_number;
              period_start = p.current_period_end;
              period_end = c.period_end;
              price_coins = c.price;
              status = CycleStatus.paid;
              main_coins_charged = movement.main_coins;
              bonus_coins_charged = movement.bonus_coins;
              coin_transaction_id = some movement.transaction_id;
              failure_reason = none;
            }
              ∷ before.cycles)
        × (find_row p.id after.subscriptions
            ≡ some (moved_on c.price c.period_end s.subscription_cancel_window_hours now p p))
  unfolding move_on
  moved c movement before r after here h =
      let (cycle, a, created, h₁) = bind-eq-ok (create_cycle db _ before) _ h in
      let (grown, subs, ledger, row) = cycle_recorded db _ before created in
      let (q, b, updated, h₂) = bind-eq-ok (update_subscription p.id _ a) _ h₁ in
      let (found, cycles, same_ledger) =
        subscription_updated p.id
          (moved_on c.price c.period_end s.subscription_cancel_window_hours now p) a p (λ x. refl)
          (ap (find_row p.id) subs ∙ here) updated in
      let ended = sym (ok_snd h₂) in
      (
        cycle.id,
        sym (ok_fst h₂),
        ap (λ (x : Store). x.ledger) ended ∙ same_ledger ∙ ledger,
        ap (λ (x : Store). x.cycles) ended ∙ cycles ∙ grown ∙ ap (λ x. x ∷ before.cycles) row,
        ap (λ (x : Store). find_row p.id x.subscriptions) ended ∙ found,
      )

  pub fell_due :
      (c : Charge) (cause : Error) (before : Store) (r : RenewalOutcome) (after : Store)
      → find_row p.id before.subscriptions ≡ some p
      → mark_past_due db s text_of_number p c cause clock before ≡ ok (r, after)
      → (id : ℕ) × (r ≡ nothing_done (some c.cycle_number))
        × (after.ledger ≡ before.ledger)
        × (after.cycles
            ≡ record {
              id = id;
              subscription_id = p.id;
              cycle_number = c.cycle_number;
              period_start = p.current_period_end;
              period_end = c.period_end;
              price_coins = c.price;
              status = CycleStatus.failed;
              main_coins_charged = pos 0;
              bonus_coins_charged = pos 0;
              coin_transaction_id = none;
              failure_reason = some cause;
            }
              ∷ before.cycles)
        × (find_row p.id after.subscriptions
            ≡ some (past_due_until (clock + at_least_one s.plan_renewal_grace_hours * hour_ms) p))
  unfolding mark_past_due
  fell_due c cause before r after here h =
      let retry_at = clock + at_least_one s.plan_renewal_grace_hours * hour_ms in
      let (cycle, a, created, h₁) = bind-eq-ok (create_cycle db _ before) _ h in
      let (grown, subs, ledger, row) = cycle_recorded db _ before created in
      let (q, b, updated, h₂) = bind-eq-ok (update_subscription p.id _ a) _ h₁ in
      let (found, cycles, same_ledger) =
        subscription_updated p.id (past_due_until retry_at) a p (λ x. refl)
          (ap (find_row p.id) subs ∙ here) updated in
      let ended = sym (ok_snd h₂) in
      (
        cycle.id,
        sym (ok_fst h₂),
        ap (λ (x : Store). x.ledger) ended ∙ same_ledger ∙ ledger,
        ap (λ (x : Store). x.cycles) ended ∙ cycles ∙ grown ∙ ap (λ x. x ∷ before.cycles) row,
        ap (λ (x : Store). find_row p.id x.subscriptions) ended ∙ found,
      )
