-- ===== src/Access/Rows.antt =====
-- The tables behind the right to watch (prisma/schema/movie.prisma, episode_access.prisma,
-- series_access.prisma, subscription.prisma, membership_plan.prisma, membership_plan_price.prisma):
-- the columns that the modelled services read or write.
use ai_cinema_be.Common.{
  if◌then◌else◌, ℕ, Bool, Option, none, some, List, String, true, false, ◌==◌, ◌&&◌,
}
use ai_cinema_be.Common.Errors.{Error}
use ai_cinema_be.Common.Int.{ℤ}
use ai_cinema_be.Common.Table.{find_row, HasId}
use ai_cinema_be.Common.Transaction.{Tx, on_part}
use ai_cinema_be.Wallet.Rows.{Ledger}
use ai_cinema_be.Wallet.Members.{CoinSplit}

pub data MovieStatus : Type 0 where
  draft assigned in_production completed under_revision cancelled : MovieStatus

pub data EpisodeStatus : Type 0 where
  draft awaiting_media processing in_review changes_requested approved : EpisodeStatus
  labeled compliance_passed scheduled published unpublished : EpisodeStatus

pub data AccessSource : Type 0 where
  episode_purchase series_purchase free_starter admin_grant : AccessSource

pub data SubscriptionStatus : Type 0 where
  pending active past_due cancelled expired : SubscriptionStatus

pub data PlanPeriod : Type 0 where
  weekly monthly yearly : PlanPeriod

pub record Movie : Type 0 where
  pub id : ℕ
  pub status : MovieStatus
  pub series_coin_price : Option ℤ

pub record Episode : Type 0 where
  pub id : ℕ
  pub movie_id : ℕ
  pub episode_number : ℕ
  pub status : EpisodeStatus
  pub coin_price : Option ℤ

pub record EpisodeAccess : Type 0 where
  pub id : ℕ
  pub user_id : ℕ
  pub episode_id : ℕ
  pub source : AccessSource
  pub paid_coins : ℤ
  pub rate_vnd : ℕ
  pub coin_transaction_id : Option ℕ
  pub granted_at : ℕ
  pub revoked_at : Option ℕ

pub record SeriesAccess : Type 0 where
  pub id : ℕ
  pub user_id : ℕ
  pub movie_id : ℕ
  pub source : AccessSource
  pub paid_coins : ℤ
  pub rate_vnd : ℕ
  pub coin_transaction_id : Option ℕ
  pub granted_at : ℕ
  pub revoked_at : Option ℕ

pub data SubscriptionEndReason : Type 0 where
  cancelled_by_member cancelled_by_admin payment_failed not_renewed : SubscriptionEndReason

pub data CycleStatus : Type 0 where
  paid failed skipped : CycleStatus

pub record Subscription : Type 0 where
  pub id : ℕ
  pub user_id : ℕ
  pub plan_id : ℕ
  pub status : SubscriptionStatus
  pub auto_renew : Bool
  pub price_coins : ℤ
  pub started_at : ℕ
  pub current_period_start : ℕ
  pub current_period_end : ℕ
  pub next_renewal_at : Option ℕ
  pub cancel_requested_at : Option ℕ
  pub cancel_window_ends_at : Option ℤ
  pub cancelled_at : Option ℕ
  pub ended_at : Option ℕ
  pub end_reason : Option SubscriptionEndReason
  pub renewals_completed : ℕ
  pub last_renewed_at : Option ℕ

pub record SubscriptionCycle : Type 0 where
  pub id : ℕ
  pub subscription_id : ℕ
  pub cycle_number : ℕ
  pub period_start : ℕ
  pub period_end : ℕ
  pub price_coins : ℤ
  pub status : CycleStatus
  pub main_coins_charged : ℤ
  pub bonus_coins_charged : ℤ
  pub coin_transaction_id : Option ℕ
  pub failure_reason : Option Error

pub record MembershipPlan : Type 0 where
  pub id : ℕ
  pub code : String
  pub name : String
  pub period : PlanPeriod
  pub duration_days : ℕ
  pub is_free : Bool
  pub is_active : Bool
  pub sort_order : ℤ
  pub is_featured : Bool
  pub created_by_id : ℕ

pub record MembershipPlanPrice : Type 0 where
  pub id : ℕ
  pub plan_id : ℕ
  pub price_coins : ℤ
  pub effective_from : ℕ
  pub effective_to : Option ℕ
  pub set_by_id : ℕ

pub data ContentEvent : Type 0 where
  episode_access_granted series_access_granted : ContentEvent
  episode_access_revoked series_access_revoked : ContentEvent
  subscription_activated subscription_renewed subscription_expired : ContentEvent
  subscription_cancelled membership_plan_created membership_plan_updated : ContentEvent
  membership_plan_price_set : ContentEvent

-- One row of the audit log.
pub record AuditEntry : Type 0 where
  pub action : ContentEvent
  pub entity_id : ℕ
  pub movie_id : Option ℕ
  pub actor_id : Option ℕ

instance abbrev pub movie_has_id : HasId Movie
movie_has_id = record { id_of = λ m. m.id }

instance abbrev pub episode_has_id : HasId Episode
episode_has_id = record { id_of = λ e. e.id }

instance abbrev pub subscription_has_id : HasId Subscription
subscription_has_id = record { id_of = λ p. p.id }

instance abbrev pub price_has_id : HasId MembershipPlanPrice
price_has_id = record { id_of = λ p. p.id }

instance abbrev pub plan_has_id : HasId MembershipPlan
plan_has_id = record { id_of = λ p. p.id }

instance abbrev pub episode_access_has_id : HasId EpisodeAccess
episode_access_has_id = record { id_of = λ a. a.id }

instance abbrev pub series_access_has_id : HasId SeriesAccess
series_access_has_id = record { id_of = λ a. a.id }

-- The tables of the membership side.
pub record Store : Type 0 where
  pub ledger : Ledger
  pub movies : List Movie
  pub episodes : List Episode
  pub episode_accesses : List EpisodeAccess
  pub series_accesses : List SeriesAccess
  pub subscriptions : List Subscription
  pub plans : List MembershipPlan
  pub prices : List MembershipPlanPrice
  pub cycles : List SubscriptionCycle
  pub audit_log : List AuditEntry

-- A transaction of the wallet, inside one of the whole store.
abbrev pub on_ledger : {A : Type 0} → Tx Ledger A → Tx Store A
on_ledger = on_part (λ s. s.ledger) (λ l s. record s { ledger = l })

abbrev pub is_published : EpisodeStatus → Bool
is_published EpisodeStatus.published = true
is_published _ = false

abbrev pub is_cancelled : MovieStatus → Bool
is_cancelled MovieStatus.cancelled = true
is_cancelled _ = false

abbrev pub if_published : Option Episode → Option Episode
if_published none = none
if_published (some e) = if is_published e.status then some e else none

-- `episode.findFirst({ where: { id, status: PUBLISHED } })`
unfoldable pub published_episode : ℕ → Store → Option Episode
published_episode episode_id st = if_published (find_row episode_id st.episodes)

-- `RUNNING_PLAN`
abbrev pub is_running : SubscriptionStatus → Bool
is_running SubscriptionStatus.active = true
is_running SubscriptionStatus.past_due = true
is_running _ = false

abbrev pub is_none {ℓ} : {A : Type ℓ} → Option A → Bool
is_none none = true
is_none (some a) = false

-- The `where` of the reads of the bought rights.
abbrev pub holds_episode : ℕ → ℕ → EpisodeAccess → Bool
holds_episode user episode a =
    a.user_id == user && (a.episode_id == episode && is_none a.revoked_at)

abbrev pub holds_series : ℕ → ℕ → SeriesAccess → Bool
holds_series user movie a = a.user_id == user && (a.movie_id == movie && is_none a.revoked_at)

abbrev pub has_running_plan : ℕ → Subscription → Bool
has_running_plan user p = p.user_id == user && is_running p.status

-- `PurchaseResultDto`, of an episode and of a series.
pub record PurchaseResult : Type 0 where
  pub episode_id : Option ℕ
  pub movie_id : Option ℕ
  pub paid_coins : ℤ
  pub charged : CoinSplit
  pub main_balance : ℤ
  pub bonus_balance : ℤ
  pub source : AccessSource
  pub granted_at : ℕ
  pub access_granted : Bool
  pub idempotent : Bool
  pub unlocked_episodes : Option ℕ
