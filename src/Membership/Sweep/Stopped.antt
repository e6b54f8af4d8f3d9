-- ===== src/Membership/Sweep/Stopped.antt =====
-- What the sweep leaves of a plan whose auto-renew was stopped: all of it.
use mathlib.Core.Option
use mathlib.Core.List.Permᴰ
use ai_cinema_be.Membership.Keeps.{
  rows_of, Keeps-same, Keeps-pure, Keeps-bind, Keeps-event, Keeps-update,
}
use ai_cinema_be.Membership.Sweep.{
  is_renewal_due, is_unpaid, RenewalOrder, renewal_batch, selected, each_of, in_batches, renew_step,
  expire_step, renew_pass, expire_pass, renew_due,
}
use ai_cinema_be.Common.{
  ◌&&◌, ltb, ◌+◌, ℕ, zero, suc, Bool, true, false, Option-cases, none, some, String, List, [], ◌∷◌,
  ◌≡◌, ◌≢◌, refl, sym, ◌∙◌, subst, Bool-cases, inl, inr, ◌==◌,
}
use ai_cinema_be.Common.Lists.{All, All-perm, length}
use ai_cinema_be.Membership.Keeps.Renewing.{Keeps-renew_on}
use ai_cinema_be.Common.Table.{find_row, find_row-id}
use ai_cinema_be.Common.Transaction.{Tx, Result, ok, err}
use ai_cinema_be.Common.Action.{Action, done, commit, next, ◌>>=◌}
use ai_cinema_be.Settings.{PlatformSetting}
use ai_cinema_be.Wallet.Rows.{Database}
use ai_cinema_be.Access.Rows.{
  Store, Subscription, subscription_expired, subscription_has_id, plan_has_id,
}
use ai_cinema_be.Membership.Ending.{if_unpaid, is_past_due, end_unpaid, expire_plan}
use ai_cinema_be.Membership.Renewal.{
  RenewalOutcome, nothing_done, if_renewing, if_on_sale, is_active, renew_if, renew,
}
use ai_cinema_be.Membership.Sweep.Rows.{renewing_row, unpaid_row, not_kept, taken}

module _ (i : ℕ) (p : Subscription) (off : p.auto_renew ≡ false)
    (undated : p.next_renewal_at ≡ none) where
  -- The stopped plan is the one row of the id `i`.
  abbrev pub At : Store → Type 0
  At st = rows_of i st.subscriptions ≡ p ∷ []

  renew-At :
      (db : Database) (s : PlatformSetting) (text_of_number : ℕ → String) (j now clock : ℕ)
      (st : Store) (a : RenewalOutcome) (after : Store)
      → j ≢ i
      → At st
      → renew db s text_of_number j now clock st ≡ ok (a, after)
      → At after
  unfolding renew renew_if
  renew-At db s text_of_number j now clock st a after away here h =
      elim (Option-cases (if_renewing (find_row j st.subscriptions))) [
        | inl e ↦ Keeps-same i (nothing_done none, st) (a, after) (rw e at h) ∙ here
        | inr (q, e) ↦
            let (row, on) = renewing_row (find_row j st.subscriptions) q e in
            let named : q.id ≡ j = find_row-id j st.subscriptions q row in
            let other : q.id ≢ i = λ same. away (sym named ∙ same) in
            Keeps-renew_on db s text_of_number i q (if_on_sale (find_row q.plan_id st.plans)) now
              clock other st a after (rw e at h)
            ∙ here
      ]

  expire-At :
      (j now : ℕ) (st : Store) (a : Bool) (after : Store)
      → j ≢ i
      → At st
      → expire_plan j now st ≡ ok (a, after)
      → At after
  unfolding expire_plan end_unpaid
  expire-At j now st a after away here h =
      elim (Option-cases (if_unpaid now (find_row j st.subscriptions))) [
        | inl e ↦ Keeps-same i (false, st) (a, after) (rw e at h) ∙ here
        | inr (q, e) ↦
            let (row, due) = unpaid_row now (find_row j st.subscriptions) q e in
            let named : q.id ≡ j = find_row-id j st.subscriptions q row in
            let other : q.id ≢ i = λ same. away (sym named ∙ same) in
            Keeps-bind i _ _ (Keeps-update i q.id _ (λ x. refl) other)
              (λ x.
                Keeps-bind i _ _ (Keeps-event i subscription_expired q.id none)
                  (λ u. Keeps-pure i true))
              st a after (rw e at h)
            ∙ here
      ]

  -- A query that does not ask for the stopped plan does not select its id.
  not_selected :
      (q : RenewalOrder) (test : Subscription → Bool) (st : Store)
      → test p ≡ false
      → At st
      → All (λ j. j ≢ i) (selected q test st)
  unfolding selected
  not_selected q test st fails here = taken i renewal_batch _ (
      All-perm _ (Permᴰ.symm (q.by_renewal-perm _)) (
        not_kept i test st.subscriptions
          (subst (All (λ (x : Subscription). test x ≡ false)) (sym here) (fails, tt))))

  -- A handler that leaves the stopped plan as it is.
  abbrev pub Leaves : {A : Type 0} → Action Store A → Type 0
  Leaves m = (st : Store) → At st → At (m st).1

  Leaves-commit :
      {A : Type 0} (m : Tx Store A)
      → ((st : Store) (a : A) (after : Store) → At st → m st ≡ ok (a, after) → At after)
      → Leaves (commit m)
  Leaves-commit {A = A} m f st here = committed (m st) refl
    where
      committed :
          (r : Result (A × Store))
          → m st ≡ r
          → At (elim r as (λ _. Result A × Store) [ ok x ↦ (ok x.0, x.1) | err e ↦ (err e, st) ]).1
      committed (ok (a, after)) e = f st a after here e
      committed (err x) e = here

  Leaves-bind :
      {A B : Type 0} (m : Action Store A) (f : A → Action Store B)
      → Leaves m
      → ((a : A) → Leaves (f a))
      → Leaves (m >>= f)
  Leaves-bind {A = A} m f l k st here = followed (m st) (l st here)
    where
      followed : (r : Result A × Store) → At r.1 → At (next r f).1
      followed (ok a, mid) there = k a mid there
      followed (err e, mid) there = there

  Leaves-each :
      (step : ℕ → Action Store Bool) (ids : List ℕ)
      → ((j : ℕ) → j ≢ i → Leaves (step j))
      → All (λ j. j ≢ i) ids
      → Leaves (each_of step ids)
  unfolding each_of
  Leaves-each step [] l away = λ st here. here
  Leaves-each step (j ∷ ids) l (away, others) = Leaves-bind (step j) _ (l j away) (λ moved.
      Leaves-bind (each_of step ids) _ (Leaves-each step ids l others) (λ n st here. here))

  Leaves-batches :
      (q : RenewalOrder) (test : Subscription → Bool) (step : ℕ → Action Store Bool) (fuel : ℕ)
      → test p ≡ false
      → ((j : ℕ) → j ≢ i → Leaves (step j))
      → Leaves (in_batches q test step fuel)
  unfolding in_batches
  Leaves-batches q test step zero fails l st here = here
  Leaves-batches q test step (suc fuel) fails l st here =
      let ids = selected q test st in
      let others = not_selected q test st fails here in
      let last =
        Leaves-bind (each_of step ids) (λ n. done (some n)) (Leaves-each step ids l others)
          (λ n x h. h) st here in
      let more =
        Leaves-bind (each_of step ids) _ (Leaves-each step ids l others)
          (λ n.
            Leaves-bind (in_batches q test step fuel) (λ m. done (Option.map (λ k. n + k) m))
              (Leaves-batches q test step fuel fails l) (λ m x h. h))
          st here in
      elim (Bool-cases (length ids == 0)) [
        | inl t ↦ rw (in_batches, t) here
        | inr t ↦ elim (Bool-cases (ltb (length ids) renewal_batch)) [
          | inl u ↦ rw (in_batches, t, u) last
          | inr u ↦ rw (in_batches, t, u) more
        ]
      ]

  not_due : (now : ℕ) → is_renewal_due now p ≡ false
  not_due now = rw off (never (is_active p.status))
    where
      never : (a : Bool) → (a && false) ≡ false
      never true = refl
      never false = refl

  not_unpaid : (now : ℕ) → is_unpaid now p ≡ false
  not_unpaid now = rw undated (never (is_past_due p.status))
    where
      never : (a : Bool) → (a && false) ≡ false
      never true = refl
      never false = refl

  module _ (db : Database) (s : PlatformSetting) (text_of_number : ℕ → String)
      (q : RenewalOrder) where
    pub Leaves-due : (fuel now clock : ℕ) → Leaves (renew_due db s text_of_number q fuel now clock)
    unfolding renew_due renew_pass expire_pass renew_step expire_step
    Leaves-due fuel now clock =
        Leaves-bind (renew_pass db s text_of_number q fuel now clock) _
          (Leaves-batches q (is_renewal_due now) _ fuel (not_due now) (λ j away.
            Leaves-bind (commit (renew db s text_of_number j now clock)) (λ r. done r.renewed)
              (Leaves-commit _ (λ st a after here h.
                renew-At db s text_of_number j now clock st a after away here h))
              (λ r st here. here)))
          (λ renewed.
            Leaves-bind (expire_pass db s text_of_number q fuel now) _
              (Leaves-batches q (is_unpaid now) _ fuel (not_unpaid now) (λ j away.
                Leaves-commit _ (λ st a after here h. expire-At j now st a after away here h)))
              (λ ended st here. here))
