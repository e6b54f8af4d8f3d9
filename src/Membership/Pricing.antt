-- ===== src/Membership/Pricing.antt =====
-- What `setPrice` makes of the price in force.
use ai_cinema_be.Common.{
  ◌≤◌, map, not, ℕ, Bool, true, false, Option, none, some, List, [], ◌∷◌, ◌≡◌, refl, sym, ap, ◌∙◌,
  subst, Bool-cases, inl, inr, arith,
}
use ai_cinema_be.Common.Lists.{All, All-map}
use ai_cinema_be.Common.Table.{find_row, IsUnique, update_row-All_at, some_eq}
use ai_cinema_be.Common.Transaction.{
  bind-require-eq-ok, bind-or_throw-eq-ok, ok, ok_snd, bind-eq-ok,
}
use ai_cinema_be.Access.Rows.{Store, MembershipPlanPrice, price_has_id, plan_has_id}
use ai_cinema_be.Membership.Plans.{
  PlanView, open_price, is_same_price, set_price, is_set_already, is_in_force, newest_price,
  current_price, ended_at, close_price,
}
use ai_cinema_be.Common.Int.{ℤ}
use ai_cinema_be.Wallet.Rows.{Database}
use ai_cinema_be.Common.Errors.{plan_not_priced, unprocessable, record_not_found}

newest-none :
    (test : MembershipPlanPrice → Bool) (ps : List MembershipPlanPrice)
    → All (λ p. test p ≡ false) ps
    → newest_price test ps ≡ none
unfolding newest_price
newest-none test [] h = refl
newest-none test (p ∷ ps) (h, hs) = rw (newest_price, h) (newest-none test ps hs)

module _ (plan_id now : ℕ) where
  -- No two prices of the plan are in force: each that is is the one that is read.
  abbrev pub IsSinglePrice : Store → Type 0
  IsSinglePrice st =
      All (λ p. is_in_force plan_id now p ≡ true → current_price plan_id now st ≡ some p) st.prices

  ended_not_in_force :
      (at : ℕ) (p : MembershipPlanPrice) → is_in_force plan_id now (ended_at at p) ≡ false
  ended_not_in_force at p = ground arith

  -- The rows once the price in force is closed.
  closed_rows :
      (at : ℕ) (current : Option MembershipPlanPrice) (st : Store) (u : Unit {0}) (after : Store)
      → current_price plan_id now st ≡ current
      → IsUnique st.prices
      → IsSinglePrice st
      → close_price current at st ≡ ok (u, after)
      → (All (λ p. is_in_force plan_id now p ≡ false) after.prices) × (after.plans ≡ st.plans)
  closed_rows at none st u after e unique single h =
      let same = sym (ok_snd h) in
      (
        subst (λ (x : Store). All (λ p. is_in_force plan_id now p ≡ false) x.prices) (sym same)
            (All-map _ _ st.prices
              (λ p k. elim (Bool-cases (is_in_force plan_id now p)) [
                | inl t ↦ absurd (cc (k t, e))
                | inr t ↦ t
              ])
              single),
        ap (λ (x : Store). x.plans) same,
      )
  closed_rows at (some c) st u after e unique single h =
      let same = sym (ok_snd h) in
      (
        subst (λ (x : Store). All (λ p. is_in_force plan_id now p ≡ false) x.prices) (sym same)
            (update_row-All_at _ (λ p. is_in_force plan_id now p ≡ false) c.id (ended_at at)
              st.prices unique (λ p id k. ended_not_in_force at p)
              (λ p other k. elim (Bool-cases (is_in_force plan_id now p)) [
                | inl t ↦
                    absurd
                      (other (ap (λ (x : MembershipPlanPrice). x.id) (some_eq (sym (k t) ∙ e))))
                | inr t ↦ t
              ])
              single),
        ap (λ (x : Store). x.plans) same,
      )

-- The row that `setPrice` opens.
abbrev opened : ℕ → ℕ → ℤ → ℕ → ℕ → MembershipPlanPrice
opened id plan_id price_coins effective_from actor = record {
  id = id;
  plan_id = plan_id;
  price_coins = price_coins;
  effective_from = effective_from;
  effective_to = none;
  set_by_id = actor;
}

-- What went through: the price is set already, or the one in force is closed and a new one opened.
data IsPriced (plan_id : ℕ) (price : ℤ) (from actor now : ℕ) (st after : Store) : Type 0 where
  kept :
      (c : MembershipPlanPrice)
      → current_price plan_id now st ≡ some c
      → is_same_price price from c ≡ true
      → after ≡ st
      → IsPriced plan_id price from actor now st after
  replaced :
      (mid : Store) (id : ℕ)
      → close_price (current_price plan_id now st) from st ≡ ok (tt, mid)
      → after.prices ≡ opened id plan_id price from actor ∷ mid.prices
      → after.plans ≡ mid.plans
      → IsPriced plan_id price from actor now st after

already :
    (o : Option MembershipPlanPrice) (price : ℤ) (from : ℕ)
    → is_set_already o price from ≡ true
    → (c : MembershipPlanPrice) × (o ≡ some c) × (is_same_price price from c ≡ true)
already none price from h = cc
already (some c) price from h = (c, refl, h)

module _ (db : Database) (plan_id : ℕ) (price : ℤ) (from actor now : ℕ) (st : Store) where
  set_price_cases :
      (view : PlanView) (after : Store)
      → set_price db plan_id price from actor now st ≡ ok (view, after)
      → IsPriced plan_id price from actor now st after
  unfolding set_price open_price
  set_price_cases view after h =
      let (plan, found, h₁) =
        bind-or_throw-eq-ok (find_row plan_id st.plans) record_not_found st _ h in
      let (paid_plan, h₂) =
        bind-require-eq-ok (not plan.is_free) (unprocessable plan_not_priced) st _ h₁ in
      let current = current_price plan_id now st in
      elim (Bool-cases (is_set_already current price from)) [
        | inl t ↦
            let (c, e, same) = already current price from t in
            kept c e same (sym (ok_snd (rw t at h₂)))
        | inr t ↦
            let (u, mid, closed, h₃) = bind-eq-ok (close_price current from st) _ (rw t at h₂) in
            replaced mid (db.fresh_id (map (λ (p : MembershipPlanPrice). p.id) mid.prices)) closed
              (ap (λ (x : Store). x.prices) (sym (ok_snd h₃)))
              (ap (λ (x : Store). x.plans) (sym (ok_snd h₃)))
      ]

  -- A price that is set from now on or from before is the one in force: where no two prices of the
  -- plan were in force, the price that is read afterwards has the amount that was set, and there are
  -- again no two.
  pub set_price-current :
      (view : PlanView) (after : Store)
      → set_price db plan_id price from actor now st ≡ ok (view, after)
      → IsUnique st.prices
      → IsSinglePrice plan_id now st
      → from ≤ now
      → IsSinglePrice plan_id now after
        × (row : MembershipPlanPrice) × (current_price plan_id now after ≡ some row)
        × (row.price_coins ≡ price)
  unfolding current_price newest_price
  set_price-current view after h unique single past = elim (set_price_cases view after h) [
    | kept c e same unchanged ↦ rw unchanged (single, c, e, ground arith)
    | replaced mid id closed rows plans ↦
        let (idle, _) =
          closed_rows plan_id now from (current_price plan_id now st) st tt mid refl unique single
            closed in
        let row = opened id plan_id price from actor in
        let open_now : is_in_force plan_id now row ≡ true = ground arith in
        let read : current_price plan_id now after ≡ some row =
          rw
            (
              current_price,
              rows,
              newest_price,
              open_now,
              newest-none (is_in_force plan_id now) mid.prices idle,
            )
            refl in
        (
          subst
              (λ ps.
                All
                  (λ p. is_in_force plan_id now p ≡ true → current_price plan_id now after ≡ some p)
                  ps)
              (sym rows) ((λ t. read), All-map _ _ mid.prices (λ p k t. absurd (cc (k, t))) idle),
          row,
          read,
          refl,
        )
  ]
