-- ===== src/Membership/Sweep/Endless.antt =====
-- Renewals that are due for plans that were taken off sale.
use mathlib.Core.Option
use mathlib.Core.List.Permᴰ
use ai_cinema_be.Common.{
  ltb, ◌==◌, ◌+◌, Bool, ℕ, zero, suc, ◌≡◌, ◌≤◌, refl, ap, sym, ◌∙◌, subst, none, some, false,
  Option, Option-cases, inl, inr, List, [], ◌∷◌, String, map,
}
use ai_cinema_be.Common.Lists.{All, All-perm, keep, take, length, length-perm, length-take}
use ai_cinema_be.Common.Table.{some_eq, find_row, IsUnique, keep-found, All-zip}
use ai_cinema_be.Common.Transaction.{Result, err, ok}
use ai_cinema_be.Settings.{PlatformSetting}
use ai_cinema_be.Wallet.Rows.{Database}
use ai_cinema_be.Access.Rows.{Store, Subscription, subscription_has_id, plan_has_id}
use ai_cinema_be.Membership.Renewal.{
  if_renewing, if_on_sale, renew, renew_if, renew_on, nothing_done, RenewalOutcome,
}
use ai_cinema_be.Membership.Sweep.Rows.{renewing_row}
use ai_cinema_be.Membership.Sweep.{
  RenewalOrder, renewal_batch, is_renewal_due, selected, each_of, in_batches, renew_step,
  renew_pass,
}
use ai_cinema_be.Common.Action.{next, done, Action}

-- The plan of the subscription is not on sale any more.
abbrev pub IsOffSale : Store → Subscription → Type 0
IsOffSale st p = if_on_sale (find_row p.plan_id st.plans) ≡ none

module _ (db : Database) (s : PlatformSetting) (text_of_number : ℕ → String) (q : RenewalOrder)
    (now clock : ℕ) where
  abbrev step : ℕ → Action Store Bool
  step = renew_step db s text_of_number q now clock

  -- A row that is read by its id, and whose plan is off sale.
  abbrev IsIdle : Store → Subscription → Type 0
  IsIdle st p = (find_row p.id st.subscriptions ≡ some p) × IsOffSale st p

  idle_renewal :
      (p : Subscription) (st : Store)
      → IsIdle st p
      → renew db s text_of_number p.id now clock st ≡ ok (nothing_done none, st)
  unfolding renew renew_if renew_on
  idle_renewal p st (found, off) =
      ap (λ o. renew_if db s text_of_number (if_renewing o) now clock st) found
      ∙ elim (Option-cases (if_renewing (some p))) [
        | inl e ↦ ap (λ o. renew_if db s text_of_number o now clock st) e
        | inr (r, e) ↦
            let (row, _) = renewing_row (some p) r e in
            ap (λ o. renew_if db s text_of_number o now clock st) e
            ∙ ap (λ o. renew_on db s text_of_number r o now clock st)
                (subst (IsOffSale st) (some_eq row) off)
      ]

  one_same : (p : Subscription) (st : Store) → IsIdle st p → step p.id st ≡ (ok false, st)
  unfolding renew_step
  one_same p st idle =
      ap
        (λ (r : Result (RenewalOutcome × Store)).
          next
            (elim r as (λ _. Result RenewalOutcome × Store) [
              | ok x ↦ (ok x.0, x.1)
              | err e ↦ (err e, st)
            ])
            (λ a. done a.renewed))
        (idle_renewal p st idle)

  each_same :
      (ps : List Subscription) (st : Store)
      → All (IsIdle st) ps
      → each_of step (map (λ (p : Subscription). p.id) ps) st ≡ (ok 0, st)
  unfolding each_of
  each_same [] st h = refl
  each_same (p ∷ ps) st (h, hs) = rw (each_of, one_same p st h, each_same ps st hs) refl

  -- The first rows of a list have what all of them have.
  All-take :
      (n : ℕ) (P : Subscription → Type 0) (ps : List Subscription) → All P ps → All P (take n ps)
  All-take zero P ps h = tt
  All-take (suc n) P [] h = tt
  All-take (suc n) P (p ∷ ps) (h, hs) = (h, All-take n P ps hs)

  length-ids : (ps : List Subscription) → length (map (λ (p : Subscription). p.id) ps) ≡ length ps
  length-ids [] = refl
  length-ids (p ∷ ps) = ap suc (length-ids ps)

  -- What follows a full batch.
  abbrev another : ℕ → ℕ → Action Store (Option ℕ)
  another fuel n st =
      next (in_batches q (is_renewal_due now) step fuel st) (λ m. done (Option.map (λ k. n + k) m))

  full_round :
      (fuel : ℕ) (st : Store)
      → length (selected q (is_renewal_due now) st) ≡ renewal_batch
      → in_batches q (is_renewal_due now) step (suc fuel) st
        ≡ next (each_of step (selected q (is_renewal_due now) st) st) (another fuel)
  unfolding in_batches
  full_round fuel st full =
      let some_due : (length (selected q (is_renewal_due now) st) == 0) ≡ false =
        ap (λ n. n == 0) full in
      let not_last : ltb (length (selected q (is_renewal_due now) st)) renewal_batch ≡ false =
        ap (λ n. ltb n renewal_batch) full in
      rw (in_batches, some_due, not_last) refl

  -- While fifty renewals or more are due, all of them of plans that are off sale, the first pass of the
  -- sweep does not end, however many rounds it is given.
  pub renew_pass-endless :
      (fuel : ℕ) (st : Store)
      → IsUnique st.subscriptions
      → All (IsOffSale st) (keep (is_renewal_due now) st.subscriptions)
      → renewal_batch ≤ length (keep (is_renewal_due now) st.subscriptions)
      → renew_pass db s text_of_number q fuel now clock st ≡ (ok none, st)
  unfolding renew_pass in_batches selected
  renew_pass-endless zero st unique off many = refl
  renew_pass-endless (suc fuel) st unique off many =
      let due = keep (is_renewal_due now) st.subscriptions in
      let sorted = q.by_renewal due in
      let full : length (selected q (is_renewal_due now) st) ≡ renewal_batch =
        length-ids (take renewal_batch sorted)
        ∙ length-take renewal_batch sorted
            (subst (λ n. renewal_batch ≤ n) (sym (length-perm (q.by_renewal-perm due))) many) in
      let idle : All (IsIdle st) due =
        All-zip (λ p. find_row p.id st.subscriptions ≡ some p) (IsOffSale st) (IsIdle st) due
          (λ p h k. (h, k)) (keep-found (is_renewal_due now) st.subscriptions unique) off in
      let same : each_of step (selected q (is_renewal_due now) st) st ≡ (ok 0, st) =
        each_same (take renewal_batch sorted) st (
          All-take renewal_batch (IsIdle st) sorted
            (All-perm (IsIdle st) (Permᴰ.symm (q.by_renewal-perm due)) idle)) in
      let again : in_batches q (is_renewal_due now) step fuel st ≡ (ok none, st) =
        renew_pass-endless fuel st unique off many in
      full_round fuel st full
      ∙ ap (λ r. next r (another fuel)) same
      ∙ ap (λ r. next r (λ m. done (Option.map (λ k. 0 + k) m))) again
