-- ===== src/Membership/Sweep/RunsOn.antt =====
-- A plan whose auto-renew was stopped, and every run of the sweep after that.
use ai_cinema_be.Common.{
  ℕ, Bool, true, false, ◌&&◌, ◌||◌, Option, none, some, String, List, [], ◌∷◌, ◌≡◌, refl, sym, ap,
  ◌∙◌, subst, Bool-cases, inl, inr, ◌==◌, ◌≢◌, ◌⊎◌, ==_iff,
}
use ai_cinema_be.Common.Lists.{any, All}
use ai_cinema_be.Common.Table.{
  IsUnique, update_row-IsUnique, find_row, find_row-id, find_row-update_self, some_eq,
}
use ai_cinema_be.Membership.Keeps.{rows_of}
use ai_cinema_be.Common.Transaction.{Result, ok, bind-or_throw-eq-ok, ok_eq, ok_fst, ok_snd}
use ai_cinema_be.Common.Action.{
  bind-eq-ok, bind-or_fail-eq-ok, bind-requires-eq-ok, commit, commit_ok,
}
use ai_cinema_be.Common.Errors.{
  not_found, unprocessable, subscription_not_found, cancellation_window_closed, record_not_found,
}
use ai_cinema_be.Settings.{PlatformSetting}
use ai_cinema_be.Wallet.Rows.{Database}
use ai_cinema_be.Access.Rows.{
  Store, Subscription, SubscriptionStatus, has_running_plan, is_running, holds_episode,
  holds_series, subscription_has_id,
}
use ai_cinema_be.Access.Episodes.{is_owned}
use ai_cinema_be.Membership.Joining.{find_mine, if_owned, update_subscription}
use ai_cinema_be.Membership.AutoRenew.{
  AutoRenewView, auto_renew_of, stopped, is_window_open, cancel_auto_renew,
}
use ai_cinema_be.Membership.Sweep.{RenewalOrder, renew_due}
use ai_cinema_be.Membership.Sweep.Stopped.{Leaves-due}

-- The one row of an id is among the rows.
any-found :
    (test : Subscription → Bool) (i : ℕ) (l : List Subscription) (p : Subscription)
    → rows_of i l ≡ p ∷ []
    → test p ≡ true
    → any test l ≡ true
any-found test i [] p h t = absurd (cc)
any-found test i (x ∷ l) p h t = elim (Bool-cases (test x)) [
  | inl v ↦ rw v refl
  | inr v ↦ elim (Bool-cases (x.id == i)) [
    | inl own ↦ let e : x ≡ p = head_eq (first x own h) in absurd (cc (sym v ∙ ap test e ∙ t))
    | inr other ↦ rw v (any-found test i l p (later x other h) t)
  ]
]
  where
    head_eq : {y z : Subscription} {ys zs : List Subscription} → (y ∷ ys) ≡ (z ∷ zs) → y ≡ z
    head_eq e = cc

    first :
        (y : Subscription)
        → (y.id == i) ≡ true
        → rows_of i (y ∷ l) ≡ p ∷ []
        → (y ∷ rows_of i l) ≡ p ∷ []
    first y e a = rw e at a

    later :
        (y : Subscription) → (y.id == i) ≡ false → rows_of i (y ∷ l) ≡ p ∷ [] → rows_of i l ≡ p ∷ []
    later y e a = rw e at a

no_other_row :
    (i : ℕ) (l : List Subscription) → All (λ (y : Subscription). i ≢ y.id) l → rows_of i l ≡ []
no_other_row i [] h = refl
no_other_row i (x ∷ l) (h, hs) = elim (Bool-cases (x.id == i)) [
  | inl t ↦ absurd (h (sym ((==_iff x.id i).0 t)))
  | inr t ↦ rw t (no_other_row i l hs)
]

-- A row of a table with unique ids is the only one of its id.
only_row :
    (i : ℕ) (l : List Subscription) (p : Subscription)
    → IsUnique l
    → find_row i l ≡ some p
    → rows_of i l ≡ p ∷ []
only_row i [] p u h = cc
only_row i (x ∷ l) p (away, u) h = elim (Bool-cases (x.id == i)) [
  | inl t ↦
      let e : x ≡ p = some_eq (rw t at h) in
      let same : x.id ≡ i = (==_iff x.id i).0 t in
      let alone : rows_of i l ≡ [] =
        no_other_row i l (subst (λ k. All (λ (y : Subscription). k ≢ y.id) l) same away) in
      subst (λ r. r ≡ p ∷ []) (sym (own_first x t)) (rw (e, alone) refl)
  | inr t ↦ rw t (only_row i l p u (rw t at h))
]
  where
    own_first : (y : Subscription) → (y.id == i) ≡ true → rows_of i (y ∷ l) ≡ (y ∷ rows_of i l)
    own_first y e = rw e refl

owned_row :
    (user : ℕ) (o : Option Subscription) (p : Subscription)
    → if_owned user o ≡ some p
    → (o ≡ some p) × ((p.user_id == user) ≡ true)
owned_row user none p h = absurd (cc)
owned_row user (some q) p h = elim (Bool-cases (q.user_id == user)) [
  | inr t ↦ absurd (cc (rw t at h))
  | inl t ↦
      let e : some q ≡ some p = rw t at h in
      (e, subst (λ x. (x.user_id == user) ≡ true) (some_eq e) t)
]

running_status :
    (t : SubscriptionStatus)
    → (t ≡ SubscriptionStatus.active) ⊎ (t ≡ SubscriptionStatus.past_due)
    → is_running t ≡ true
running_status t (inl e) = rw e refl
running_status t (inr e) = rw e refl

or_last : (a b c : Bool) → c ≡ true → (a || (b || c)) ≡ true
or_last true b c h = refl
or_last false true c h = refl
or_last false false c h = h

both_true : (a b : Bool) → a ≡ true → b ≡ true → (a && b) ≡ true
both_true true true h k = refl
both_true true false h k = cc
both_true false b h k = cc

module _ (db : Database) (s : PlatformSetting) (text_of_number : ℕ → String)
    (q : RenewalOrder) where
  -- The store after runs of the sweep, each with its fuel and its two instants.
  abbrev pub after_runs : List (ℕ × ℕ × ℕ) → Store → Store
  after_runs [] st = st
  after_runs ((fuel, now, clock) ∷ runs) st =
      after_runs runs (renew_due db s text_of_number q fuel now clock st).1

  still_there :
      (p : Subscription) (runs : List (ℕ × ℕ × ℕ)) (st : Store)
      → p.auto_renew ≡ false
      → p.next_renewal_at ≡ none
      → rows_of p.id st.subscriptions ≡ p ∷ []
      → rows_of p.id (after_runs runs st).subscriptions ≡ p ∷ []
  still_there p [] st off undated here = here
  still_there p ((fuel, now, clock) ∷ runs) st off undated here =
      still_there p runs (renew_due db s text_of_number q fuel now clock st).1 off undated
        (Leaves-due p.id p off undated db s text_of_number q fuel now clock st here)

  -- The plan as stopping auto-renew leaves it.
  stopped_row :
      (user id now : ℕ) (st : Store) (view : AutoRenewView) (after : Store)
      → IsUnique st.subscriptions
      → cancel_auto_renew s user id now st ≡ (ok view, after)
      → (p : Subscription) × (rows_of p.id after.subscriptions ≡ stopped now p ∷ [])
        × (p.status ≡ view.status)
        × ((p.user_id == user) ≡ true)
  unfolding cancel_auto_renew find_mine update_subscription
  stopped_row user id now st view after u h =
      let (p, mine, h₁) =
        bind-or_fail-eq-ok (find_mine user id st) (not_found subscription_not_found) st _ h in
      let (_, h₂) =
        bind-requires-eq-ok
          (is_window_open p.next_renewal_at s.subscription_cancel_window_hours now)
          (unprocessable cancellation_window_closed) st _ h₁ in
      let (updated, mid, first, second) =
        bind-eq-ok (commit (update_subscription p.id (stopped now)) st) _ h₂ in
      let (before, found, wrote) =
        bind-or_throw-eq-ok (find_row p.id st.subscriptions) record_not_found st _
          (commit_ok (update_subscription p.id (stopped now)) st first) in
      let (row, own) = owned_row user (find_row id st.subscriptions) p mine in
      let same : mid ≡ after = ap (λ (r : Result AutoRenewView × Store). r.1) second in
      let at_id : find_row p.id st.subscriptions ≡ some p =
        subst (λ k. find_row k st.subscriptions ≡ some p)
          (sym (find_row-id id st.subscriptions p row)) row in
      let answer : auto_renew_of updated ≡ view =
        ok_eq (ap (λ (r : Result AutoRenewView × Store). r.0) second) in
      let status : p.status ≡ view.status =
        ap (λ (x : Subscription). x.status) (some_eq (sym at_id ∙ found))
        ∙ ap (λ (x : Subscription). x.status) (ok_fst wrote)
        ∙ ap (λ (v : AutoRenewView). v.status) answer in
      let written = ap (λ (x : Store). x.subscriptions) (sym (ok_snd wrote ∙ same)) in
      (
        p,
        only_row p.id after.subscriptions (stopped now p)
            (subst IsUnique (sym written)
              (update_row-IsUnique p.id (stopped now) st.subscriptions (λ y. refl) u))
            (ap (find_row p.id) written
              ∙ find_row-update_self p.id (stopped now) st.subscriptions p (λ y. refl) at_id),
        status,
        own,
      )

  -- Where subscriptions have unique ids, a plan that is running, ACTIVE or PAST_DUE, when its member
  -- stops auto-renew never ends of itself: after any number of runs of the sweep, at any times, the
  -- member still counts as on a running plan, and with that as owning every episode of every movie.
  pub cancel_auto_renew-runs_on :
      (user id now : ℕ) (st : Store) (view : AutoRenewView) (after : Store)
      (runs : List (ℕ × ℕ × ℕ))
      → IsUnique st.subscriptions
      → cancel_auto_renew s user id now st ≡ (ok view, after)
      → (view.status ≡ SubscriptionStatus.active) ⊎ (view.status ≡ SubscriptionStatus.past_due)
      → (any (has_running_plan user) (after_runs runs after).subscriptions ≡ true)
        × ((episode movie : ℕ) → is_owned episode movie user (after_runs runs after) ≡ true)
  unfolding is_owned
  cancel_auto_renew-runs_on user id now st view after runs u h running =
      let (p, here, status, own) = stopped_row user id now st view after u h in
      let runs_now : is_running p.status ≡ true =
        subst (λ t. is_running t ≡ true) (sym status) (running_status view.status running) in
      let rides : any (has_running_plan user) (after_runs runs after).subscriptions ≡ true =
        any-found (has_running_plan user) p.id (after_runs runs after).subscriptions (stopped now p)
          (still_there (stopped now p) runs after refl refl here)
          (both_true (p.user_id == user) (is_running p.status) own runs_now) in
      (
        rides,
        λ episode movie.
            or_last (any (holds_episode user episode) (after_runs runs after).episode_accesses)
              (any (holds_series user movie) (after_runs runs after).series_accesses)
              (any (has_running_plan user) (after_runs runs after).subscriptions) rides,
      )
