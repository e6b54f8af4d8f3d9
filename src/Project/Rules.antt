-- ===== src/Project/Rules.antt =====
-- project-rules.ts and project-access.service.ts: which status allows what, and who may touch a
-- project.
use ai_cinema_be.Common.{◌||◌, ◌==◌, Bool, true, false, Option, none, some, ℕ}
use ai_cinema_be.Common.Transaction.{Tx, require, or_throw, gets, pure, ◌>>=◌, ◌>>◌}
use ai_cinema_be.Access.Rows.{MovieStatus, EpisodeStatus}
use ai_cinema_be.Project.Rows.{
  UserRole, Studio, Project, ProjectEpisode, project_has_id, project_episode_has_id,
}
use ai_cinema_be.Common.Errors.{
  episode_not_found, crash, wrong_role, forbidden, project_not_found, not_found, project_status,
  conflict,
}
use ai_cinema_be.Common.Table.{find_row}
use ai_cinema_be.Common.Lists.{any}

-- `OPEN_PROJECT_STATUSES`
abbrev pub is_open_project : MovieStatus → Bool
is_open_project MovieStatus.draft = true
is_open_project MovieStatus.assigned = true
is_open_project MovieStatus.in_production = true
is_open_project _ = false

-- `DELIVERY_PROJECT_STATUSES`
abbrev pub is_in_delivery : MovieStatus → Bool
is_in_delivery MovieStatus.in_production = true
is_in_delivery MovieStatus.under_revision = true
is_in_delivery _ = false

-- `EPISODE_STATUSES_BEFORE_APPROVAL`
abbrev pub is_before_approval : EpisodeStatus → Bool
is_before_approval EpisodeStatus.draft = true
is_before_approval EpisodeStatus.awaiting_media = true
is_before_approval EpisodeStatus.processing = true
is_before_approval EpisodeStatus.in_review = true
is_before_approval EpisodeStatus.changes_requested = true
is_before_approval _ = false

-- `assertProjectStatus` and `assertEpisodeStatus`, with the allowed statuses as a test.
unfoldable pub assert_project_status :
    {S : Type 0} → MovieStatus → (MovieStatus → Bool) → Tx S (Unit {0})
assert_project_status status allowed = require (allowed status) (conflict project_status)

unfoldable pub initial_episode_status : MovieStatus → EpisodeStatus
initial_episode_status MovieStatus.in_production = EpisodeStatus.awaiting_media
initial_episode_status _ = EpisodeStatus.draft

pub record AuthenticatedUser : Type 0 where
  pub id : ℕ
  pub role : UserRole

pub data ProjectRole : Type 0 where
  read reviewer creator : ProjectRole

abbrev pub eqb_role : UserRole → UserRole → Bool
eqb_role UserRole.member UserRole.member = true
eqb_role UserRole.content_creator UserRole.content_creator = true
eqb_role UserRole.content_reviewer UserRole.content_reviewer = true
eqb_role UserRole.staff UserRole.staff = true
eqb_role UserRole.admin UserRole.admin = true
eqb_role _ _ = false

abbrev pub is_user : Option ℕ → ℕ → Bool
is_user none u = false
is_user (some v) u = v == u

unfoldable pub can_read : Project → AuthenticatedUser → Studio → Bool
can_read p user st =
    p.reviewer_id == user.id
    || (is_user p.creator_id user.id || any (eqb_role user.role) st.all_readers)

-- `assertRole`, as a test.
abbrev pub has_role : Project → AuthenticatedUser → ProjectRole → Bool
has_role p user read = true
has_role p user reviewer = p.reviewer_id == user.id
has_role p user creator = is_user p.creator_id user.id

-- `movie`
unfoldable pub project_of : ℕ → AuthenticatedUser → ProjectRole → Tx Studio Project
project_of movie_id user role = do
  found ← gets (λ st. find_row movie_id st.projects)
  p ← or_throw found (not_found project_not_found)
  readable ← gets (can_read p user)
  require readable (not_found project_not_found)
  require (has_role p user role) (forbidden wrong_role)
  pure p

-- `episode`: the episode with its movie, checked in the same way.
unfoldable pub episode_of :
    ℕ → AuthenticatedUser → ProjectRole → Tx Studio (ProjectEpisode × Project)
episode_of episode_id user role = do
  found ← gets (λ st. find_row episode_id st.episodes)
  e ← or_throw found (not_found episode_not_found)
  movie ← gets (λ st. find_row e.movie_id st.projects)
  p ← or_throw movie crash
  readable ← gets (can_read p user)
  require readable (not_found episode_not_found)
  require (has_role p user role) (forbidden wrong_role)
  pure (e, p)
