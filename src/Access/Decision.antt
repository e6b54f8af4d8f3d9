-- ===== src/Access/Decision.antt =====
-- access-decision.service.ts: may this caller watch this episode, and if not, what is left to do.
pub mod Laws
pub mod Bought
use mathlib.Core.Option
use ai_cinema_be.Common.{
  ℕ, Bool, true, false, ◌&&◌, not, Option, none, some, List, [], ◌∷◌, ◌++◌, String, if◌then◌else◌,
  leb, ltb,
}
use ai_cinema_be.Common.Int.{ℤ, pos, ◌+ℤ◌, leb_ℤ, ltb_ℤ, eqb_ℤ}
use ai_cinema_be.Common.Action.{Action, done, reads, or_fail, commit, ◌>>=◌, ◌>>◌}
use ai_cinema_be.Access.Rows.{
  holds_series, holds_episode, on_ledger, published_episode, has_running_plan, SeriesAccess,
  PlanPeriod, is_none, MembershipPlanPrice, EpisodeAccess, Subscription, Store, MembershipPlan,
  AccessSource, Movie, Episode, movie_has_id, episode_has_id, plan_has_id, is_published,
}
use ai_cinema_be.Wallet.Rows.{Database}
use ai_cinema_be.Wallet.Members.{affordability, Affordability}
use ai_cinema_be.Common.Lists.{find}
use ai_cinema_be.Common.Table.{find_row}
use ai_cinema_be.Settings.{PlatformSetting}
use ai_cinema_be.Wallet.Spend.{or_else}
use ai_cinema_be.Common.Errors.{crash, episode_not_found, not_found}

pub data AccessSourceName : Type 0 where
  no_source free_starter free plan episode_purchase series_purchase admin_grant : AccessSourceName

pub data ActorType : Type 0 where
  guest member : ActorType

pub data AccessMethod : Type 0 where
  register_or_login monthly_plan unlock_episode unlock_series obtain_coin : AccessMethod

pub data NextAction : Type 0 where
  register_or_login obtain_coin unlock_episode unlock_series monthly_plan : NextAction
  handoff_to_playback : NextAction

-- The part of `AccessRequired` that only a refused member gets.
pub record Gap : Type 0 where
  pub monthly_plan_coin_price : Option ℤ
  pub main_balance : ℤ
  pub bonus_balance : ℤ
  pub enough_coins : Bool
  pub missing_coins : ℤ
  pub enough_for_plan : Bool

pub record AccessRequired : Type 0 where
  pub coin_price : ℤ
  pub is_free_starter : Bool
  pub series_coin_price : Option ℤ
  pub series_owned : Option Bool
  pub gap : Option Gap

-- `AccessDecisionDto`
pub record AccessDecision : Type 0 where
  pub episode_id : ℕ
  pub movie_id : ℕ
  pub access_granted : Bool
  pub source : AccessSourceName
  pub actor_type : ActorType
  pub plan_code : Option String
  pub access_methods : List AccessMethod
  pub required : AccessRequired
  pub next_action : NextAction

-- `base`
pub record Base : Type 0 where
  pub episode_id : ℕ
  pub movie_id : ℕ
  pub required : AccessRequired

-- The name of a stored source is the same word.
unfoldable pub source_name : AccessSource → AccessSourceName
source_name AccessSource.episode_purchase = AccessSourceName.episode_purchase
source_name AccessSource.series_purchase = AccessSourceName.series_purchase
source_name AccessSource.free_starter = AccessSourceName.free_starter
source_name AccessSource.admin_grant = AccessSourceName.admin_grant

unfoldable pub granted : Base → AccessSourceName → Option Bool → AccessDecision
granted base source series_owned = record {
  episode_id = base.episode_id;
  movie_id = base.movie_id;
  access_granted = true;
  source = source;
  actor_type = member;
  plan_code = none;
  access_methods = [];
  required = record base.required { series_owned = series_owned };
  next_action = handoff_to_playback;
}

unfoldable pub for_guest : Base → AccessDecision
for_guest base = record {
  episode_id = base.episode_id;
  movie_id = base.movie_id;
  access_granted = false;
  source = no_source;
  actor_type = guest;
  plan_code = none;
  access_methods = AccessMethod.register_or_login ∷ [];
  required = base.required;
  next_action = NextAction.register_or_login;
}

unfoldable pub by_plan : Base → String → AccessDecision
by_plan base code = record {
  episode_id = base.episode_id;
  movie_id = base.movie_id;
  access_granted = true;
  source = plan;
  actor_type = member;
  plan_code = some code;
  access_methods = [];
  required = base.required;
  next_action = handoff_to_playback;
}

-- `orderBy: { currentPeriodEnd: 'desc' }`, the first row.
unfoldable pub latest : (Subscription → Bool) → List Subscription → Option Subscription
latest p [] = none
latest p (x ∷ xs) = let rest = latest p xs in if p x then later x rest else rest
  where
    later : Subscription → Option Subscription → Option Subscription
    later x none = some x
    later x (some y) = if ltb x.current_period_end y.current_period_end then some y else some x

unfoldable pub plan_of : Subscription → List MembershipPlan → Option MembershipPlan
plan_of p plans = find_row p.plan_id plans

-- The `where` of `cheapestPlanPrice`.
abbrev pub is_offered : Option MembershipPlan → Bool
is_offered none = false
is_offered (some p) = p.is_active && (not p.is_free && is_monthly p.period)
  where
    is_monthly : PlanPeriod → Bool
    is_monthly PlanPeriod.monthly = true
    is_monthly _ = false

abbrev pub least : ℤ → Option ℤ → Option ℤ
least a none = some a
least a (some b) = if leb_ℤ a b then some a else some b

unfoldable pub cheapest_plan_price : List MembershipPlan → List MembershipPlanPrice → Option ℤ
cheapest_plan_price plans [] = none
cheapest_plan_price plans (p ∷ ps) =
    let rest = cheapest_plan_price plans ps in
    if is_none p.effective_to && is_offered (find_row p.plan_id plans)
    then least p.price_coins rest
    else rest

abbrev pub covers_plan : Option ℤ → ℤ → Bool
covers_plan none coins = false
covers_plan (some price) coins = leb_ℤ price coins

abbrev pub at_most : Option ℤ → ℤ → Bool
at_most none coins = false
at_most (some price) coins = leb_ℤ price coins

-- What `refused` answers, given the balances.
unfoldable pub refusal : Base → Option ℤ → Affordability → AccessDecision
refusal base plan_price wallet =
    let series_price = base.required.series_coin_price in
    record {
      episode_id = base.episode_id;
      movie_id = base.movie_id;
      access_granted = false;
      source = no_source;
      actor_type = member;
      plan_code = none;
      access_methods =
          (if is_none plan_price then [] else (AccessMethod.monthly_plan ∷ []))
          ++ (AccessMethod.unlock_episode
              ∷ ((if is_none series_price then [] else (AccessMethod.unlock_series ∷ []))
                  ++ (if wallet.enough_coins then [] else (AccessMethod.obtain_coin ∷ []))));
      required = record base.required {
        series_owned = some false;
        gap = some (record {
          monthly_plan_coin_price = plan_price;
          main_balance = wallet.main_balance;
          bonus_balance = wallet.bonus_balance;
          enough_coins = wallet.enough_coins;
          missing_coins = wallet.missing_coins;
          enough_for_plan = covers_plan plan_price (wallet.main_balance +ℤ wallet.bonus_balance);
        });
      };
      next_action =
          if not wallet.enough_coins
          then NextAction.obtain_coin
          else if at_most series_price base.required.coin_price
          then NextAction.unlock_series
          else NextAction.unlock_episode;
    }

-- The rights of a member, in the order in which `forMember` looks at them.
unfoldable pub by_right :
    Base → Option String → Option EpisodeAccess → Option SeriesAccess → Option AccessDecision
by_right base (some code) episode series = some (by_plan base code)
by_right base none (some a) series =
    some (granted base (source_name a.source) (some (not (is_none series))))
by_right base none none (some a) = some (granted base AccessSourceName.series_purchase (some true))
by_right base none none none = none

-- The code of the plan that a member's running subscription is on.
unfoldable pub running_plan : ℕ → Store → Option String
running_plan user st =
    Option.bind (latest (has_running_plan user) st.subscriptions)
      (λ p. Option.map (λ (m : MembershipPlan). m.code) (plan_of p st.plans))

unfoldable pub right_of : Base → ℕ → Store → Option AccessDecision
right_of base user st =
    by_right base (running_plan user st)
      (find (holds_episode user base.episode_id) st.episode_accesses)
      (find (holds_series user base.movie_id) st.series_accesses)

module _ (db : Database) (s : PlatformSetting) where
  unfoldable pub refused : Base → ℕ → Option ℤ → ℕ → Action Store AccessDecision
  refused base user plan_price now = do
    wallet ← commit (on_ledger (affordability db s user base.required.coin_price now))
    done (refusal base plan_price wallet)

  unfoldable pub or_refused :
      Option AccessDecision → Base → ℕ → Option ℤ → ℕ → Action Store AccessDecision
  or_refused (some d) base user plan_price now = done d
  or_refused none base user plan_price now = refused base user plan_price now

  unfoldable pub for_member : Base → ℕ → ℕ → Action Store AccessDecision
  for_member base user now = do
    right ← reads (right_of base user)
    plan_price ← reads (λ st. cheapest_plan_price st.plans st.prices)
    or_refused right base user plan_price now

  -- `base` of an episode and its movie.
  unfoldable pub base_of : Episode → Movie → Base
  base_of e m = record {
    episode_id = e.id;
    movie_id = e.movie_id;
    required = record {
      coin_price = or_else e.coin_price s.episode_coin_price_min;
      is_free_starter = leb e.episode_number s.free_starter_episode_count;
      series_coin_price = m.series_coin_price;
      series_owned = none;
      gap = none;
    };
  }

  -- The checks from the free rules on.
  unfoldable pub decide_on : Base → Option ℕ → ℕ → Action Store AccessDecision
  decide_on base user now =
      if base.required.is_free_starter
      then done (granted base AccessSourceName.free_starter none)
      else if eqb_ℤ base.required.coin_price (pos 0)
      then done (granted base free none)
      else elim user [ none ↦ done (for_guest base) | some u ↦ for_member base u now ]

  unfoldable pub decide : ℕ → Option ℕ → ℕ → Action Store AccessDecision
  decide episode_id user now = do
    episode ← reads (published_episode episode_id)
    e ← or_fail episode (not_found episode_not_found)
    movie ← reads (λ st. find_row e.movie_id st.movies)
    m ← or_fail movie crash
    decide_on (base_of e m) user now
