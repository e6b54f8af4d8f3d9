-- ===== src/Membership/Plans.antt =====
-- membership-plan.service.ts: the catalogue of plans and their prices over time. The description and
-- the features of a plan are left out.
use ai_cinema_be.Common.{
  ℕ, Bool, true, false, not, ◌&&◌, Option, none, some, List, [], ◌∷◌, String, str_eq, map, leb, ltb,
  ◌==◌, if◌then◌else◌,
}
use ai_cinema_be.Common.Int.{ℤ, pos, eqb_ℤ}
use ai_cinema_be.Common.Lists.{any}
use ai_cinema_be.Common.Table.{find_row, update_row}
use ai_cinema_be.Common.Transaction.{Tx, pure, gets, modify, require, or_throw, ◌>>=◌, ◌>>◌}
use ai_cinema_be.Common.Errors.{
  not_found, unprocessable, plan_not_found, plan_not_active, plan_not_priced, record_not_found,
  unique_violation,
}
use ai_cinema_be.Wallet.Rows.{Database}
use ai_cinema_be.Wallet.Spend.{or_else}
use ai_cinema_be.Access.Rows.{
  Store, MembershipPlan, MembershipPlanPrice, PlanPeriod, ContentEvent, membership_plan_created,
  membership_plan_updated, membership_plan_price_set, is_none, plan_has_id, price_has_id,
}

-- A row of the audit log without a movie.
abbrev pub record_event : ContentEvent → ℕ → Option ℕ → Tx Store (Unit {0})
record_event action entity actor = modify (λ st. record st {
  audit_log =
      record { action = action; entity_id = entity; movie_id = none; actor_id = actor }
      ∷ st.audit_log;
})

-- The `where` of `currentPrice`.
abbrev pub is_in_force : ℕ → ℕ → MembershipPlanPrice → Bool
is_in_force plan_id at p =
    p.plan_id == plan_id && (leb p.effective_from at && is_none p.effective_to)

abbrev pub newer_price : MembershipPlanPrice → Option MembershipPlanPrice → MembershipPlanPrice
newer_price p none = p
newer_price p (some q) = if ltb p.effective_from q.effective_from then q else p

-- `findFirst` under `orderBy: { effectiveFrom: 'desc' }`.
unfoldable pub newest_price :
    (MembershipPlanPrice → Bool) → List MembershipPlanPrice → Option MembershipPlanPrice
newest_price test [] = none
newest_price test (p ∷ ps) =
    let rest = newest_price test ps in if test p then some (newer_price p rest) else rest

unfoldable pub current_price : ℕ → ℕ → Store → Option MembershipPlanPrice
current_price plan_id at st = newest_price (is_in_force plan_id at) st.prices

-- `purchasablePlan`
unfoldable pub purchasable_plan : ℕ → ℕ → Tx Store (MembershipPlan × MembershipPlanPrice)
purchasable_plan plan_id now = do
  found ← gets (λ st. find_row plan_id st.plans)
  plan ← or_throw found (not_found plan_not_found)
  require plan.is_active (unprocessable plan_not_active)
  require (not plan.is_free) (unprocessable plan_not_priced)
  in_force ← gets (current_price plan_id now)
  price ← or_throw in_force (unprocessable plan_not_priced)
  pure (plan, price)

-- `PlanView`: the plan with the price in force.
pub record PlanView : Type 0 where
  pub plan : MembershipPlan
  pub price_coins : Option ℤ
  pub price_id : Option ℕ

-- `viewOf`
unfoldable pub view_of : MembershipPlan → Option MembershipPlanPrice → PlanView
view_of plan none = record { plan = plan; price_coins = none; price_id = none }
view_of plan (some p) = record {
  plan = plan;
  price_coins = some p.price_coins;
  price_id = some p.id;
}

pub record PlanInput : Type 0 where
  pub code : String
  pub name : String
  pub period : PlanPeriod
  pub duration_days : ℕ
  pub is_free : Option Bool
  pub sort_order : Option ℤ
  pub is_featured : Option Bool

pub record PlanUpdate : Type 0 where
  pub name : Option String
  pub period : Option PlanPeriod
  pub duration_days : Option ℕ
  pub is_free : Option Bool
  pub is_active : Option Bool
  pub sort_order : Option ℤ
  pub is_featured : Option Bool

abbrev has_code : String → MembershipPlan → Bool
has_code code p = str_eq p.code code

abbrev pub updated_plan : PlanUpdate → MembershipPlan → MembershipPlan
updated_plan dto p = record p {
  name = or_else dto.name p.name;
  period = or_else dto.period p.period;
  duration_days = or_else dto.duration_days p.duration_days;
  is_free = or_else dto.is_free p.is_free;
  is_active = or_else dto.is_active p.is_active;
  sort_order = or_else dto.sort_order p.sort_order;
  is_featured = or_else dto.is_featured p.is_featured;
}

-- `update`
unfoldable pub update_plan : ℕ → PlanUpdate → ℕ → Tx Store MembershipPlan
update_plan id dto actor = do
  found ← gets (λ st. find_row id st.plans)
  before ← or_throw found record_not_found
  let plan = updated_plan dto before
  modify (λ st. record st { plans = update_row id (updated_plan dto) st.plans })
  record_event membership_plan_updated plan.id (some actor)
  pure plan

-- The price that the code finds already set.
abbrev pub is_same_price : ℤ → ℕ → MembershipPlanPrice → Bool
is_same_price price_coins effective_from p =
    eqb_ℤ p.price_coins price_coins && leb effective_from p.effective_from

abbrev pub ended_at : ℕ → MembershipPlanPrice → MembershipPlanPrice
ended_at at p = record p { effective_to = some at }

-- Closes the price in force.
abbrev pub close_price : Option MembershipPlanPrice → ℕ → Tx Store (Unit {0})
close_price none at = pure tt
close_price (some p) at =
    modify (λ st. record st { prices = update_row p.id (ended_at at) st.prices })

abbrev pub is_set_already : Option MembershipPlanPrice → ℤ → ℕ → Bool
is_set_already none price_coins effective_from = false
is_set_already (some p) price_coins effective_from = is_same_price price_coins effective_from p

module _ (db : Database) where
  -- `create`
  unfoldable pub create_plan : PlanInput → ℕ → Tx Store MembershipPlan
  create_plan dto actor = do
    taken ← gets (λ st. any (has_code dto.code) st.plans)
    require (not taken) unique_violation
    id ← gets (λ st. db.fresh_id (map (λ (p : MembershipPlan). p.id) st.plans))
    let plan : MembershipPlan = record {
      id = id;
      code = dto.code;
      name = dto.name;
      period = dto.period;
      duration_days = dto.duration_days;
      is_free = or_else dto.is_free false;
      is_active = true;
      sort_order = or_else dto.sort_order (pos 0);
      is_featured = or_else dto.is_featured false;
      created_by_id = actor;
    }
    modify (λ st. record st { plans = plan ∷ st.plans })
    record_event membership_plan_created plan.id (some actor)
    pure plan

  -- The row that `setPrice` opens.
  unfoldable pub open_price : ℕ → ℤ → ℕ → ℕ → Tx Store MembershipPlanPrice
  open_price plan_id price_coins effective_from actor = do
    id ← gets (λ st. db.fresh_id (map (λ (p : MembershipPlanPrice). p.id) st.prices))
    let price : MembershipPlanPrice = record {
      id = id;
      plan_id = plan_id;
      price_coins = price_coins;
      effective_from = effective_from;
      effective_to = none;
      set_by_id = actor;
    }
    modify (λ st. record st { prices = price ∷ st.prices })
    pure price

  -- `setPrice`, at the instant `now`.
  unfoldable pub set_price : ℕ → ℤ → ℕ → ℕ → ℕ → Tx Store PlanView
  set_price plan_id price_coins effective_from actor now = do
    found ← gets (λ st. find_row plan_id st.plans)
    plan ← or_throw found record_not_found
    require (not plan.is_free) (unprocessable plan_not_priced)
    current ← gets (current_price plan_id now)
    if is_set_already current price_coins effective_from then pure (view_of plan current) else do
      close_price current effective_from
      price ← open_price plan_id price_coins effective_from actor
      record_event membership_plan_price_set price.id (some actor)
      pure (view_of plan (some price))
