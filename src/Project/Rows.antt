-- ===== src/Project/Rows.antt =====
-- The tables of a movie project (prisma/schema/movie.prisma, user.prisma, publication.prisma,
-- token_ledger.prisma, reviewer_token.prisma): the columns that the modelled services read or write.
use ai_cinema_be.Common.Table.{HasId}
use ai_cinema_be.Access.Rows.{MovieStatus, EpisodeStatus}
use ai_cinema_be.Common.{Option, Bool, ℕ, List}
use ai_cinema_be.Common.Int.{ℤ}
use ai_cinema_be.Common.Words.{Words}

pub data UserRole : Type 0 where
  member content_creator content_reviewer staff admin : UserRole

pub record User : Type 0 where
  pub id : ℕ
  pub role : UserRole
  pub is_active : Bool

-- A movie, as a project.
pub record Project : Type 0 where
  pub id : ℕ
  pub status : MovieStatus
  pub reviewer_id : ℕ
  pub creator_id : Option ℕ
  pub cancel_reason : Option Words
  pub assigned_at : Option ℕ
  pub completed_at : Option ℕ
  pub cancelled_at : Option ℕ

pub record ProjectEpisode : Type 0 where
  pub id : ℕ
  pub movie_id : ℕ
  pub status : EpisodeStatus
  pub milestone_date : Option ℕ
  pub coin_price : Option ℤ

pub record Publication : Type 0 where
  pub id : ℕ
  pub episode_id : ℕ
  pub published_at : Option ℕ
  pub unpublished_at : Option ℕ
  pub unpublished_by_id : Option ℕ

pub data TokenEntryType : Type 0 where
  initial top_up correction : TokenEntryType

pub record TokenLedgerEntry : Type 0 where
  pub movie_id : ℕ
  pub entry_type : TokenEntryType
  pub amount_tokens : ℤ
  pub rate_vnd : ℕ
  pub reason : Option Words
  pub created_by_id : ℕ

pub data ReviewerTokenEntryType : Type 0 where
  grant revoke : ReviewerTokenEntryType

pub record ReviewerTokenEntry : Type 0 where
  pub reviewer_id : ℕ
  pub entry_type : ReviewerTokenEntryType
  pub amount_tokens : ℤ
  pub rate_vnd : ℕ
  pub reason : Option Words
  pub created_by_id : Option ℕ

pub data ProjectEvent : Type 0 where
  project_assigned project_cancelled project_completed : ProjectEvent
  fee_allocated fee_topped_up fee_corrected episode_priced price_out_of_range : ProjectEvent

pub record ProjectAudit : Type 0 where
  pub action : ProjectEvent
  pub movie_id : ℕ
  pub actor_id : Option ℕ

pub data PriceAlertStatus : Type 0 where
  alert_open change_requested resolved : PriceAlertStatus

pub record PriceAlert : Type 0 where
  pub id : ℕ
  pub episode_id : ℕ
  pub coin_price : ℤ
  pub range_min : ℤ
  pub range_max : ℤ
  pub status : PriceAlertStatus
  pub set_by_id : ℕ
  pub admin_note : Option Words
  pub handled_by_id : Option ℕ
  pub handled_at : Option ℕ

instance abbrev pub price_alert_has_id : HasId PriceAlert
price_alert_has_id = record { id_of = λ a. a.id }

-- `all_readers` are the roles that hold the permission project:read.all.
pub record Studio : Type 0 where
  pub users : List User
  pub projects : List Project
  pub episodes : List ProjectEpisode
  pub publications : List Publication
  pub alerts : List PriceAlert
  pub fees : List TokenLedgerEntry
  pub budgets : List ReviewerTokenEntry
  pub audit_log : List ProjectAudit
  pub all_readers : List UserRole

instance abbrev pub user_has_id : HasId User
user_has_id = record { id_of = λ u. u.id }

instance abbrev pub project_has_id : HasId Project
project_has_id = record { id_of = λ p. p.id }

instance abbrev pub project_episode_has_id : HasId ProjectEpisode
project_episode_has_id = record { id_of = λ e. e.id }
